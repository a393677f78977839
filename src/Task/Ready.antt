-- ===== src/Task/Ready.antt =====
-- `run_ready_tasks` of kernel/src/task/executor.rs as a whole.
use zoom_os.Prelude.{
  ℕ, suc, ◌+◌, ◌≤◌, ◌≡◌, refl, ap, true, some, List, [], ◌∷◌, ◌++◌, arith, length, length-append,
  map, IsIn, ◌∙◌,
}
use zoom_os.Task.{
  Executor, Polled, find_task, take_spawned, run_tasks, run_ready_tasks, sleep_if_idle,
}
use zoom_os.Task.Sound.{IsSound, take_spawned_lem}
use zoom_os.Task.Fair.{IsPaid, run_tasks-Idle, run_tasks-polls}

length-map : {F : Type 0} (l : List (ℕ × F)) → length (map (λ t. t.0) l) ≡ length l
length-map [] = refl
length-map (x ∷ l) = ap suc (length-map l)

module _ {F W : Type 0} (poll_future : ℕ → F → W → Polled F W) where
  -- From a sound executor whose polls pay for the wakeups they make, both loops end after at most so
  -- many rounds as there are queued and spawned tasks and wakeups to pay for, with the queue empty.
  -- Every task that was queued or spawned, and is alive, has been polled then.
  pub run_ready_tasks_lem :
      (budget : W → ℕ) (limit fuel : ℕ) (e : Executor F W)
      → IsSound limit e
      → IsPaid poll_future budget
      → length e.task_queue + length e.spawn_queue + budget e.world ≤ fuel
      → (after : Executor F W) × (run_ready_tasks poll_future fuel e ≡ some after)
        × (sleep_if_idle after ≡ true)
        × ((id : ℕ) (f : F)
            → IsIn id (e.task_queue ++ map (λ t. t.0) e.spawn_queue)
            → find_task id (e.task_waker_list ++ e.spawn_queue) ≡ some f
            → IsIn id after.polls)
  unfolding run_ready_tasks
  run_ready_tasks_lem budget limit fuel e sound paid enough =
      let (after, done, idle, grown) = run_tasks-Idle poll_future budget fuel start paid (
        omega (
          arith,
          length-append e.task_queue (map (λ t. t.0) e.spawn_queue),
          length-map e.spawn_queue,
        )) in
      (
        after,
        ap (run_tasks poll_future fuel) taken ∙ done,
        idle,
        λ id f queued found. run_tasks-polls poll_future fuel id f start after queued found done,
      )
    where
      start : Executor F W
      start = record e {
        spawn_queue = [];
        task_waker_list = e.task_waker_list ++ e.spawn_queue;
        task_queue = e.task_queue ++ map (λ t. t.0) e.spawn_queue;
      }

      taken : take_spawned e.spawn_queue e ≡ start
      taken = (take_spawned_lem limit e sound).0
