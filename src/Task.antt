-- ===== src/Task.antt =====
-- Tasks and their executor: kernel/src/task. Futures are a parameter.
pub mod Map
pub mod Sound
pub mod Runs
pub mod Fair
pub mod Ready
pub mod Starve
pub mod Yield
mod Tests
use zoom_os.Prelude.{
  ℕ, zero, suc, ◌+◌, ◌%◌, ◌^◌, Bool, true, false, Option, none, some, List, [], ◌∷◌, ◌++◌, ltb,
  ◌==◌, if◌then◌else◌,
}

abbrev pub u64_mod : ℕ
u64_mod = 2 ^ 64

-- What one poll of a future gives: the future that is pending, or none if it is ready, the rest of
-- the kernel's state, the tasks woken in the meantime, also by interrupts, and the futures spawned.
pub record Polled (F W : Type 0) : Type 0 where
  pub pending : Option F
  pub world : W
  pub woken : List ℕ
  pub spawned : List F

-- A task is its id and its future. `task_waker_list` is sorted by id, and `polls` remembers which
-- tasks were polled.
pub record Executor (F W : Type 0) : Type 0 where
  pub task_queue : List ℕ
  pub spawn_queue : List (ℕ × F)
  pub task_waker_list : List (ℕ × F)
  pub next_id : ℕ
  pub world : W
  pub polls : List ℕ

unfoldable pub is_empty : List ℕ → Bool
is_empty [] = true
is_empty (id ∷ queue) = false

-- The operations of `BTreeMap`.
module _ {F : Type 0} where
  unfoldable pub find_task : ℕ → List (ℕ × F) → Option F
  find_task id [] = none
  find_task id ((k, f) ∷ tasks) =
      let later = find_task id tasks in if id == k then some f else later

  unfoldable pub insert_task : ℕ → F → List (ℕ × F) → List (ℕ × F)
  insert_task id f [] = (id, f) ∷ []
  insert_task id f ((k, g) ∷ tasks) =
      let later = insert_task id f tasks in
      if id == k
      then (id, f) ∷ tasks
      else if ltb id k
      then (id, f) ∷ (k, g) ∷ tasks
      else (k, g) ∷ later

  unfoldable pub remove_task : ℕ → List (ℕ × F) → List (ℕ × F)
  remove_task id [] = []
  remove_task id ((k, g) ∷ tasks) =
      let later = remove_task id tasks in if id == k then tasks else (k, g) ∷ later

  -- The match on the result of a poll.
  unfoldable pub store : ℕ → Option F → List (ℕ × F) → List (ℕ × F)
  store id none tasks = remove_task id tasks
  store id (some future) tasks = insert_task id future tasks

module _ {F W : Type 0} where
  -- `Task::new` takes the next id, and `spawn` queues the task.
  unfoldable pub spawn : F → Executor F W → Executor F W
  spawn future e = record e {
    spawn_queue = e.spawn_queue ++ ((e.next_id, future) ∷ []);
    next_id = (e.next_id + 1) % u64_mod;
  }

  unfoldable pub spawn_each : List F → Executor F W → Executor F W
  spawn_each [] e = e
  spawn_each (future ∷ futures) e = spawn_each futures (spawn future e)

  -- The loop over the spawn queue at the start of `run_ready_tasks`.
  unfoldable pub take_spawned : List (ℕ × F) → Executor F W → Executor F W
  take_spawned [] e = record e { spawn_queue = [] }
  take_spawned ((id, future) ∷ spawned) e = take_spawned spawned (record e {
    task_waker_list = insert_task id future e.task_waker_list;
    task_queue = e.task_queue ++ (id ∷ []);
  })

  unfoldable pub after_poll : ℕ → Polled F W → Executor F W → Executor F W
  after_poll id p e = spawn_each p.spawned (record e {
    task_queue = e.task_queue ++ p.woken;
    task_waker_list = store id p.pending e.task_waker_list;
    world = p.world;
    polls = e.polls ++ (id ∷ []);
  })

  -- `poll_future` is `Future::poll` with the id of the task that is the context's waker.
  module _ (poll_future : ℕ → F → W → Polled F W) where
    unfoldable pub poll_found : ℕ → Option F → Executor F W → Executor F W
    poll_found id none e = e
    poll_found id (some future) e = after_poll id (poll_future id future e.world) e

    -- One round of the second loop of `run_ready_tasks`, for the id that was popped.
    unfoldable pub poll_task : ℕ → Executor F W → Executor F W
    poll_task id e = poll_found id (find_task id e.task_waker_list) e

    -- `task_queue.pop()`, and the rest of the loop for the id that it gives.
    unfoldable pub on_pop :
        List ℕ → Executor F W → (Executor F W → Option (Executor F W)) → Option (Executor F W)
    on_pop [] e continue = some e
    on_pop (id ∷ queue) e continue = continue (poll_task id (record e { task_queue = queue }))

    -- The second loop; `none` while it has not ended.
    unfoldable pub run_tasks : ℕ → Executor F W → Option (Executor F W)
    run_tasks zero e = on_pop e.task_queue e (λ next. none)
    run_tasks (suc fuel) e = on_pop e.task_queue e (λ next. run_tasks fuel next)

    unfoldable pub run_ready_tasks : ℕ → Executor F W → Option (Executor F W)
    run_ready_tasks fuel e = run_tasks fuel (take_spawned e.spawn_queue e)

  -- Whether the processor halts until an interrupt.
  unfoldable pub sleep_if_idle : Executor F W → Bool
  sleep_if_idle e = is_empty e.task_queue
