-- ===== src/Task/Runs.antt =====
-- The loop of `run_ready_tasks` in kernel/src/task/executor.rs: when it ends, whom it polls, and
-- when it never ends.
use mathlib.Core.List.{append-nil, append_assoc}
use zoom_os.Prelude.{
  ℕ, zero, suc, ◌≡◌, ◌≢◌, refl, ap, ◌∙◌, sym, Option, none, some, some-injective, List, [], ◌∷◌,
  ◌++◌, subst,
}
use zoom_os.Task.{
  Executor, Polled, find_task, spawn, spawn_each, store, after_poll, poll_found, poll_task, on_pop,
  run_tasks,
}
use zoom_os.Task.Map.{find-insert_other, find-remove_other}
use zoom_os.Task.Sound.{spawn_each-Same}

pub find-store_other :
    {F : Type 0} (id other : ℕ) (p : Option F) (tasks : List (ℕ × F))
    → other ≢ id
    → find_task other (store id p tasks) ≡ find_task other tasks
unfolding store
find-store_other id other none tasks d = find-remove_other id other tasks d
find-store_other id other (some f) tasks d = find-insert_other id other f tasks d

spawn_each-grows :
    {F W : Type 0} (futures : List F) (e : Executor F W)
    → (more : List (ℕ × F)) × ((spawn_each futures e).spawn_queue ≡ e.spawn_queue ++ more)
unfolding spawn_each spawn
spawn_each-grows [] e = ([], sym (append-nil e.spawn_queue))
spawn_each-grows (future ∷ futures) e =
    let (more, grown) = spawn_each-grows futures (spawn future e) in
    ((e.next_id, future) ∷ more, grown ∙ append_assoc e.spawn_queue ((e.next_id, future) ∷ []) more)

module _ {F W : Type 0} (poll_future : ℕ → F → W → Polled F W) where
  -- A round for a task that is in the map, by what its poll gives.
  module _ (id : ℕ) (f : F) (e : Executor F W) where
    abbrev pub Found : Type 0
    Found =
        let p = poll_future id f e.world in
        let after = poll_task poll_future id e in
        (after.task_waker_list ≡ store id p.pending e.task_waker_list)
        × (after.task_queue ≡ e.task_queue ++ p.woken)
        × (after.polls ≡ e.polls ++ (id ∷ []))
        × (after.world ≡ p.world)
        × ((more : List (ℕ × F)) × (after.spawn_queue ≡ e.spawn_queue ++ more))

    pub poll_task-Found : find_task id e.task_waker_list ≡ some f → Found
    unfolding poll_task poll_found after_poll
    poll_task-Found found =
        let p = poll_future id f e.world in
        let ready = record e {
          task_queue = e.task_queue ++ p.woken;
          task_waker_list = store id p.pending e.task_waker_list;
          world = p.world;
          polls = e.polls ++ (id ∷ []);
        } in
        let polled : poll_task poll_future id e ≡ spawn_each p.spawned ready =
          ap (λ o. poll_found poll_future id o e) found in
        let (tasks, queue, polls, world) = spawn_each-Same p.spawned ready in
        rw polled (tasks, queue, polls, world, spawn_each-grows p.spawned ready)

  pub poll_task-missing :
      (id : ℕ) (e : Executor F W)
      → find_task id e.task_waker_list ≡ none
      → poll_task poll_future id e ≡ e
  unfolding poll_task poll_found
  poll_task-missing id e missing = ap (λ o. poll_found poll_future id o e) missing

  -- The executor after the pop of `id`, with the rest of the queue, and the round for it.
  abbrev pub round : ℕ → List ℕ → Executor F W → Executor F W
  round id queue e = poll_task poll_future id (record e { task_queue = queue })

  pub run_tasks-empty :
      (fuel : ℕ) (e : Executor F W) → e.task_queue ≡ [] → run_tasks poll_future fuel e ≡ some e
  unfolding run_tasks on_pop
  run_tasks-empty zero e none_left = ap (λ q. on_pop poll_future q e (λ next. none)) none_left
  run_tasks-empty (suc fuel) e none_left =
      ap (λ q. on_pop poll_future q e (λ next. run_tasks poll_future fuel next)) none_left

  pub run_tasks-stops :
      (id : ℕ) (queue : List ℕ) (e : Executor F W)
      → e.task_queue ≡ id ∷ queue
      → run_tasks poll_future zero e ≡ none
  unfolding run_tasks on_pop
  run_tasks-stops id queue e popped = ap (λ q. on_pop poll_future q e (λ next. none)) popped

  pub run_tasks-round :
      (fuel id : ℕ) (queue : List ℕ) (e : Executor F W)
      → e.task_queue ≡ id ∷ queue
      → run_tasks poll_future (suc fuel) e ≡ run_tasks poll_future fuel (round id queue e)
  unfolding run_tasks on_pop
  run_tasks-round fuel id queue e popped =
      ap (λ q. on_pop poll_future q e (λ next. run_tasks poll_future fuel next)) popped

  -- What every round keeps holds when the loop ends, and the queue is empty then.
  pub run_tasks-Keeps :
      (P : Executor F W → Type 0)
      → ((id : ℕ) (queue : List ℕ) (e : Executor F W)
          → e.task_queue ≡ id ∷ queue
          → P e
          → P (round id queue e))
      → (fuel : ℕ) (e after : Executor F W) → P e
      → run_tasks poll_future fuel e ≡ some after
      → P after × (after.task_queue ≡ [])
  run_tasks-Keeps P keeps fuel e after p done = go fuel e p done (e.task_queue) refl
    where
      at_end :
          (fuel : ℕ) (e : Executor F W)
          → P e
          → run_tasks poll_future fuel e ≡ some after
          → e.task_queue ≡ []
          → P after × (after.task_queue ≡ [])
      at_end fuel e p done none_left =
          let same = some-injective e after (sym (run_tasks-empty fuel e none_left) ∙ done) in
          (subst P same p, ap (λ x. x.task_queue) (sym same) ∙ none_left)

      go :
          (fuel : ℕ) (e : Executor F W)
          → P e
          → run_tasks poll_future fuel e ≡ some after
          → (q : List ℕ) → e.task_queue ≡ q
          → P after × (after.task_queue ≡ [])
      go fuel e p done [] popped = at_end fuel e p done popped
      go zero e p done (id ∷ queue) popped =
          absurd (let stuck = run_tasks-stops id queue e popped in cc)
      go (suc fuel) e p done (id ∷ queue) popped =
          let next = round id queue e in
          go fuel next (keeps id queue e popped p)
            (sym (run_tasks-round fuel id queue e popped) ∙ done) next.task_queue refl
