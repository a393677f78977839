-- ===== src/Task/Fair.antt =====
-- The loop of `run_ready_tasks` in kernel/src/task/executor.rs ends when the wakeups do, and polls
-- every task that was queued.
use mathlib.Core.List.{append-nil, append_assoc}
use zoom_os.Prelude.{
  ℕ, zero, suc, ◌+◌, ◌≤◌, ◌≡◌, ◌≢◌, refl, ap, ◌∙◌, sym, ◌⊎◌, inl, inr, true, some, List, [], ◌∷◌,
  ◌++◌, arith, length, length-append, IsIn, IsIn-left, IsIn-right, Option-cases, subst, Bool-cases,
  ◌==◌, ==_iff,
}
use zoom_os.Task.{Executor, Polled, find_task, poll_task, run_tasks, sleep_if_idle, is_empty}
use zoom_os.Task.Runs.{
  poll_task-Found, poll_task-missing, round, run_tasks-empty, run_tasks-round, run_tasks-Keeps,
  find-store_other,
}

module _ {F W : Type 0} (poll_future : ℕ → F → W → Polled F W) where
  -- Each poll pays for the tasks that it wakes from a budget of the state.
  abbrev pub IsPaid : (W → ℕ) → Type 0
  IsPaid budget =
      (id : ℕ) (f : F) (w : W)
      → let p = poll_future id f w in length p.woken + budget p.world ≤ budget w

  poll_task-measure :
      (budget : W → ℕ)
      → IsPaid budget
      → (id : ℕ) (e : Executor F W)
      → let after = poll_task poll_future id e in
        length after.task_queue + budget after.world ≤ length e.task_queue + budget e.world
  poll_task-measure budget paid id e = elim (Option-cases (find_task id e.task_waker_list)) [
    | inl missing ↦ rw (poll_task-missing poll_future id e missing) (omega arith)
    | inr (f, found) ↦
        let (_, queue, _, world, _) = poll_task-Found poll_future id f e found in
        let p = poll_future id f e.world in
        let cost = paid id f e.world in
        let sum = length-append e.task_queue p.woken in rw (queue, world) (omega (arith, cost, sum))
  ]

  poll_task-grows :
      (id : ℕ) (e : Executor F W)
      → (more : List (ℕ × F)) × ((poll_task poll_future id e).spawn_queue ≡ e.spawn_queue ++ more)
  poll_task-grows id e = elim (Option-cases (find_task id e.task_waker_list)) [
    | inl missing ↦ (
      [],
      ap (λ x. x.spawn_queue) (poll_task-missing poll_future id e missing)
          ∙ sym (append-nil e.spawn_queue),
    )
    | inr (f, found) ↦ (poll_task-Found poll_future id f e found).4
  ]

  run_tasks-ends :
      (budget : W → ℕ)
      → IsPaid budget
      → (fuel : ℕ) (e : Executor F W) → length e.task_queue + budget e.world ≤ fuel
      → (after : Executor F W) × (run_tasks poll_future fuel e ≡ some after)
  run_tasks-ends budget paid fuel e enough = go fuel e enough e.task_queue refl
    where
      go :
          (fuel : ℕ) (e : Executor F W)
          → length e.task_queue + budget e.world ≤ fuel
          → (q : List ℕ) → e.task_queue ≡ q
          → (after : Executor F W) × (run_tasks poll_future fuel e ≡ some after)
      go fuel e enough [] popped = (e, run_tasks-empty poll_future fuel e popped)
      go zero e enough (id ∷ queue) popped =
          let long : length e.task_queue ≡ suc (length queue) = ap length popped in
          absurd (omega (arith, long, enough))
      go (suc fuel) e enough (id ∷ queue) popped =
          let next = round poll_future id queue e in
          let long : length e.task_queue ≡ suc (length queue) = ap length popped in
          let less = poll_task-measure budget paid id (record e { task_queue = queue }) in
          let (after, done) =
            go fuel next (omega (arith, long, enough, less)) next.task_queue refl in
          (after, run_tasks-round poll_future fuel id queue e popped ∙ done)

  -- If each poll pays for the wakeups it makes, the loop ends, at the latest after as many rounds as
  -- there are queued tasks and wakeups to pay for. The queue is empty then, so that the processor
  -- halts, although what was spawned in the meantime still waits behind what was there.
  pub run_tasks-Idle :
      (budget : W → ℕ) (fuel : ℕ) (e : Executor F W)
      → IsPaid budget
      → length e.task_queue + budget e.world ≤ fuel
      → (after : Executor F W) × (run_tasks poll_future fuel e ≡ some after)
        × (sleep_if_idle after ≡ true)
        × ((more : List (ℕ × F)) × (after.spawn_queue ≡ e.spawn_queue ++ more))
  unfolding sleep_if_idle is_empty
  run_tasks-Idle budget fuel e paid enough =
      let (after, done) = run_tasks-ends budget paid fuel e enough in
      let (grown, none_left) =
        run_tasks-Keeps poll_future
          (λ x. (more : List (ℕ × F)) × (x.spawn_queue ≡ e.spawn_queue ++ more)) keeps fuel e after
          ([], sym (append-nil e.spawn_queue)) done in
      (after, done, ap is_empty none_left, grown)
    where
      keeps :
          (id : ℕ) (queue : List ℕ) (x : Executor F W)
          → x.task_queue ≡ id ∷ queue
          → ((more : List (ℕ × F)) × (x.spawn_queue ≡ e.spawn_queue ++ more))
          → ((more : List (ℕ × F)) × ((round poll_future id queue x).spawn_queue
                ≡ e.spawn_queue ++ more))
      keeps id queue x popped (more, grown) =
          let (extra, further) = poll_task-grows id (record x { task_queue = queue }) in
          (
            more ++ extra,
            further ∙ (ap (λ s. s ++ extra) grown ∙ append_assoc e.spawn_queue more extra),
          )

  -- The task was polled, or it is queued and in the map.
  Served : ℕ → Executor F W → Type 0
  Served id e =
      IsIn id e.polls
      ⊎ (IsIn id e.task_queue × ((f : F) × (find_task id e.task_waker_list ≡ some f)))

  round-polled :
      (id t : ℕ) (queue : List ℕ) (e : Executor F W)
      → IsIn t e.polls
      → IsIn t (round poll_future id queue e).polls
  round-polled id t queue e polled = elim (Option-cases (find_task id e.task_waker_list)) [
    | inl missing ↦
        rw (poll_task-missing poll_future id (record e { task_queue = queue }) missing) polled
    | inr (f, found) ↦
        let (_, _, polls, _, _) =
          poll_task-Found poll_future id f (record e { task_queue = queue }) found in
        rw polls (IsIn-left t e.polls (id ∷ []) polled)
  ]

  round-mine :
      (id : ℕ) (f : F) (queue : List ℕ) (e : Executor F W)
      → find_task id e.task_waker_list ≡ some f
      → IsIn id (round poll_future id queue e).polls
  round-mine id f queue e found =
      let (_, _, polls, _, _) =
        poll_task-Found poll_future id f (record e { task_queue = queue }) found in
      rw polls (IsIn-right id e.polls (id ∷ []) (inl refl))

  -- A round for another task leaves a task in the map, and in the queue behind it.
  pub round-other :
      (id t : ℕ) (f : F) (queue : List ℕ) (e : Executor F W)
      → t ≢ id
      → IsIn t queue
      → find_task t e.task_waker_list ≡ some f
      → let after = round poll_future id queue e in
        IsIn t after.task_queue × (find_task t after.task_waker_list ≡ some f)
  round-other id t f queue e differ queued found =
      elim (Option-cases (find_task id e.task_waker_list)) [
        | inl missing ↦
            rw (poll_task-missing poll_future id (record e { task_queue = queue }) missing)
              (queued, found)
        | inr (g, here) ↦
            let (tasks, woken, _, _, _) =
              poll_task-Found poll_future id g (record e { task_queue = queue }) here in
            let p = poll_future id g e.world in
            rw (tasks, woken)
              (
                IsIn-left t queue p.woken queued,
                find-store_other id t p.pending e.task_waker_list differ ∙ found,
              )
      ]

  -- Every task that is queued and in the map when the loop starts has been polled when it ends.
  pub run_tasks-polls :
      (fuel id : ℕ) (f : F) (e after : Executor F W)
      → IsIn id e.task_queue
      → find_task id e.task_waker_list ≡ some f
      → run_tasks poll_future fuel e ≡ some after
      → IsIn id after.polls
  unfolding Served
  run_tasks-polls fuel id f e after queued found done =
      let (served, none_left) =
        run_tasks-Keeps poll_future (Served id) keeps fuel e after (inr (queued, (f, found)))
          done in
      elim served [ inl polled ↦ polled | inr (left, _) ↦ absurd (subst (IsIn id) none_left left) ]
    where
      keeps :
          (i : ℕ) (queue : List ℕ) (x : Executor F W)
          → x.task_queue ≡ i ∷ queue
          → Served id x
          → Served id (round poll_future i queue x)
      keeps i queue x popped (inl polled) = inl (round-polled i id queue x polled)
      keeps i queue x popped (inr (queued, (g, here))) =
          let mine : id ≡ i → Served id (round poll_future i queue x) = λ e. inl (
            subst (λ n. IsIn id (round poll_future n queue x).polls) e
              (round-mine id g queue x here)) in
          elim (subst (IsIn id) popped queued) [
            | inl e ↦ mine e
            | inr behind ↦ elim (Bool-cases (id == i)) [
              | inl same ↦ mine ((==_iff id i).0 same)
              | inr other ↦
                  let differ : id ≢ i = λ e. absurd (ground arith) in
                  let (still, there) = round-other i id g queue x differ behind here in
                  inr (still, (g, there))
            ]
          ]
