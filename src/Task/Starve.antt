-- ===== src/Task/Starve.antt =====
-- A task that wakes itself in each poll, as `loop_yield!` of kernel/src/task/mod.rs does, and the
-- loop of `run_ready_tasks` in kernel/src/task/executor.rs.
use zoom_os.Prelude.{
  ℕ, zero, suc, ◌≡◌, ◌≢◌, refl, ◌∙◌, inl, inr, none, some, List, [], ◌∷◌, arith, IsIn, IsIn-left,
  IsIn-right, subst, Bool-cases, ◌==◌, ==_iff,
}
use zoom_os.Task.{
  Executor, Polled, find_task, insert_task, take_spawned, run_tasks, run_ready_tasks, store,
}
use zoom_os.Task.Map.{find-insert_task, find-insert_other}
use zoom_os.Task.Runs.{poll_task-Found, round, run_tasks-stops, run_tasks-round}
use zoom_os.Task.Fair.{round-other}

module _ {F W : Type 0} (poll_future : ℕ → F → W → Polled F W) where
  -- Whenever it is polled, the task is pending and has been woken.
  abbrev pub IsRestless : ℕ → Type 0
  IsRestless t =
      (f : F) (w : W)
      → let p = poll_future t f w in ((g : F) × (p.pending ≡ some g)) × IsIn t p.woken

  Queued : ℕ → Executor F W → Type 0
  Queued t e = IsIn t e.task_queue × ((f : F) × (find_task t e.task_waker_list ≡ some f))

  round-restless :
      (t : ℕ) (f : F) (queue : List ℕ) (e : Executor F W)
      → IsRestless t
      → find_task t e.task_waker_list ≡ some f
      → Queued t (round poll_future t queue e)
  unfolding Queued store
  round-restless t f queue e restless found =
      let (tasks, woken, _, _, _) =
        poll_task-Found poll_future t f (record e { task_queue = queue }) found in
      let ((g, pending), again) = restless f e.world in
      let p = poll_future t f e.world in
      (
        rw woken (IsIn-right t queue p.woken again),
        (g, rw (tasks, pending) (find-insert_task t g e.task_waker_list)),
      )

  round-Queued :
      (t i : ℕ) (queue : List ℕ) (e : Executor F W)
      → IsRestless t
      → e.task_queue ≡ i ∷ queue
      → Queued t e
      → Queued t (round poll_future i queue e)
  unfolding Queued
  round-Queued t i queue e restless popped (queued, (f, found)) =
      let mine : t ≡ i → Queued t (round poll_future i queue e) = λ s.
        subst (λ n. Queued t (round poll_future n queue e)) s
          (round-restless t f queue e restless found) in
      elim (subst (IsIn t) popped queued) [
        | inl s ↦ mine s
        | inr behind ↦ elim (Bool-cases (t == i)) [
          | inl same ↦ mine ((==_iff t i).0 same)
          | inr other ↦
              let differ : t ≢ i = λ s. absurd (ground arith) in
              let (still, there) = round-other poll_future i t f queue e differ behind found in
              (still, (f, there))
        ]
      ]

  find-insert :
      (t k : ℕ) (f g : F) (tasks : List (ℕ × F))
      → find_task t tasks ≡ some f
      → (h : F) × (find_task t (insert_task k g tasks) ≡ some h)
  find-insert t k f g tasks found = elim (Bool-cases (t == k)) [
    | inl same ↦ (
      g,
      subst (λ n. find_task t (insert_task n g tasks) ≡ some g) ((==_iff t k).0 same)
          (find-insert_task t g tasks),
    )
    | inr other ↦
        let differ : t ≢ k = λ s. absurd (ground arith) in
        (f, find-insert_other k t g tasks differ ∙ found)
  ]

  -- The spawned tasks come in behind it.
  take_spawned-Queued :
      (t : ℕ) (spawned : List (ℕ × F)) (e : Executor F W)
      → Queued t e
      → Queued t (take_spawned spawned e)
  unfolding take_spawned Queued
  take_spawned-Queued t [] e h = h
  take_spawned-Queued t ((k, g) ∷ spawned) e (queued, (f, found)) =
      take_spawned-Queued t spawned _
        (IsIn-left t e.task_queue (k ∷ []) queued, find-insert t k f g e.task_waker_list found)

  run_tasks-Queued :
      (t fuel : ℕ) (e : Executor F W)
      → IsRestless t
      → Queued t e
      → (q : List ℕ) → e.task_queue ≡ q
      → run_tasks poll_future fuel e ≡ none
  unfolding Queued
  run_tasks-Queued t fuel e restless h [] popped = absurd (subst (IsIn t) popped h.0)
  run_tasks-Queued t zero e restless h (i ∷ queue) popped =
      run_tasks-stops poll_future i queue e popped
  run_tasks-Queued t (suc fuel) e restless h (i ∷ queue) popped =
      let next = round poll_future i queue e in
      run_tasks-round poll_future fuel i queue e popped
      ∙ run_tasks-Queued t fuel next restless (round-Queued t i queue e restless popped h)
          next.task_queue refl

  -- A task that is in the queue and in the map, and that each of its polls leaves pending and woken,
  -- keeps `run_ready_tasks` from ever returning, whatever else is queued and spawned.
  pub run_ready_tasks-Restless :
      (t fuel : ℕ) (f : F) (e : Executor F W)
      → IsRestless t
      → IsIn t e.task_queue
      → find_task t e.task_waker_list ≡ some f
      → run_ready_tasks poll_future fuel e ≡ none
  unfolding Queued run_ready_tasks
  run_ready_tasks-Restless t fuel f e restless queued found =
      run_tasks-Queued t fuel (take_spawned e.spawn_queue e) restless
        (take_spawned-Queued t e.spawn_queue e (queued, (f, found))) _ refl
