-- ===== src/Task/Tests.antt =====
-- Runs of the executor of kernel/src/task.
use zoom_os.Prelude.{
  ℕ, zero, suc, ◌+◌, ◌<◌, ◌≡◌, ◌≢◌, refl, ◌⊎◌, inl, true, none, some, [], ◌∷◌, ◌++◌, arith, length,
  IsIn,
}
use zoom_os.Task.{u64_mod, Executor, Polled, find_task, poll_task, run_ready_tasks, sleep_if_idle}
use zoom_os.Task.Sound.{IsSound, poll_task-Outcome}
use zoom_os.Task.Fair.{IsPaid}
use zoom_os.Task.Ready.{run_ready_tasks_lem}
use zoom_os.Task.Starve.{run_ready_tasks-Restless}
use zoom_os.Task.Yield.{Loop, unstarted, poll_loop, poll_loop-IsRestless}

-- A future counts its polls down, wakes the next task in the first of them while the state allows a
-- wakeup, and is ready at 0.
count_down : ℕ → ℕ → ℕ → Polled ℕ ℕ
count_down id zero w = record { pending = none; world = w; woken = []; spawned = [] }
count_down id (suc n) zero = record { pending = some n; world = zero; woken = []; spawned = 3 ∷ [] }
count_down id (suc n) (suc w) = record {
  pending = some n;
  world = w;
  woken = suc id ∷ [];
  spawned = [];
}

count_down-IsPaid : IsPaid count_down (λ w. w)
unfolding count_down
count_down-IsPaid id zero w = omega arith
count_down-IsPaid id (suc n) zero = omega arith
count_down-IsPaid id (suc n) (suc w) = omega arith

abbrev two_tasks : Executor ℕ ℕ
two_tasks = record {
  task_queue = 0 ∷ 1 ∷ [];
  spawn_queue = (2, 5) ∷ [];
  task_waker_list = (0, 1) ∷ (1, 0) ∷ [];
  next_id = 3;
  world = 2;
  polls = [];
}

abbrev yielding : Executor Loop ℕ
yielding = record {
  task_queue = 7 ∷ [];
  spawn_queue = (8, unstarted) ∷ [];
  task_waker_list = (7, unstarted) ∷ [];
  next_id = 9;
  world = 0;
  polls = [];
}

two_tasks-IsSound : IsSound 2 two_tasks
two_tasks-IsSound = (
  ((omega arith, tt), (tt, tt)),
  (omega arith, (omega arith, tt)),
  (tt, tt),
  (omega arith, tt),
  (omega arith, tt),
  omega arith,
)

found_7 : find_task 7 yielding.task_waker_list ≡ some unstarted
unfolding find_task
found_7 = refl

poll_task-Outcome_example :
    ((find_task 1 two_tasks.task_waker_list ≡ none)
      × (poll_task count_down 1 two_tasks ≡ two_tasks))
    ⊎ ((f : ℕ) × (find_task 1 two_tasks.task_waker_list ≡ some f)
        × let p = count_down 1 f 2 in
          let after = poll_task count_down 1 two_tasks in
          (find_task 1 after.task_waker_list ≡ p.pending)
          × ((other : ℕ)
              → other ≢ 1
              → find_task other after.task_waker_list ≡ find_task other two_tasks.task_waker_list)
          × (after.task_queue ≡ two_tasks.task_queue ++ p.woken)
          × (after.polls ≡ 1 ∷ [])
          × (3 + length p.spawned < u64_mod → IsSound 2 after))
poll_task-Outcome_example = poll_task-Outcome count_down 2 1 two_tasks two_tasks-IsSound

run_ready_tasks_lem_example :
    (after : Executor ℕ ℕ) × (run_ready_tasks count_down 5 two_tasks ≡ some after)
    × (sleep_if_idle after ≡ true)
    × ((id f : ℕ)
        → IsIn id (0 ∷ 1 ∷ 2 ∷ [])
        → find_task id ((0, 1) ∷ (1, 0) ∷ (2, 5) ∷ []) ≡ some f
        → IsIn id after.polls)
run_ready_tasks_lem_example =
    run_ready_tasks_lem count_down (λ w. w) 2 5 two_tasks two_tasks-IsSound count_down-IsPaid
      (omega arith)

run_ready_tasks-Restless_example : run_ready_tasks (poll_loop suc) 100 yielding ≡ none
run_ready_tasks-Restless_example =
    run_ready_tasks-Restless (poll_loop suc) 7 100 unstarted yielding (poll_loop-IsRestless suc 7)
      (inl refl) found_7
