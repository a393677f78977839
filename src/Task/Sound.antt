-- ===== src/Task/Sound.antt =====
-- The ids of the tasks in kernel/src/task: each task keeps its own, and a finished task is gone.
use native.Mathlib.Nat.{mod-eq_of_lt}
use mathlib.Core.List.{append-nil, append_assoc}
use zoom_os.Prelude.{
  ℕ, suc, ◌+◌, ◌%◌, ◌≤◌, ◌<◌, ◌≡◌, ◌≢◌, refl, ap, ◌∙◌, ◌⊎◌, inl, inr, Option-cases, Option, none,
  some, List, [], ◌∷◌, ◌++◌, map, arith, All, All-append, length,
}
use zoom_os.Task.{
  u64_mod, Executor, Polled, find_task, spawn, spawn_each, take_spawned, store, after_poll,
  poll_found, poll_task,
}
use zoom_os.Task.Map.{
  IsSorted, insert_task-above, store-IsSorted, store-All, find_task-All, IsSorted-last,
  find-remove_task, find-insert_task, find-insert_other, find-remove_other,
}

All-wider :
    {F : Type 0} (a b : ℕ) (tasks : List (ℕ × F))
    → a ≤ b
    → All (λ t. t.0 < a) tasks
    → All (λ t. t.0 < b) tasks
All-wider a b [] le h = tt
All-wider a b (t ∷ tasks) le h = (omega (arith, h.0), All-wider a b tasks le h.1)

find-store :
    {F : Type 0} (id : ℕ) (p : Option F) (tasks : List (ℕ × F))
    → IsSorted tasks
    → (find_task id (store id p tasks) ≡ p)
      × ((other : ℕ) → other ≢ id → find_task other (store id p tasks) ≡ find_task other tasks)
unfolding store
find-store id none tasks h =
    (find-remove_task id tasks h, λ other d. find-remove_other id other tasks d)
find-store id (some f) tasks h =
    (find-insert_task id f tasks, λ other d. find-insert_other id other f tasks d)

module _ {F W : Type 0} where
  -- Tasks in the map have ids below the limit, spawned ones from the limit on and below the next
  -- id, and both lists go up.
  abbrev pub IsSound : ℕ → Executor F W → Type 0
  IsSound limit e =
      IsSorted e.task_waker_list
      × All (λ t. t.0 < limit) e.task_waker_list
      × IsSorted e.spawn_queue
      × All (λ t. limit ≤ t.0) e.spawn_queue
      × All (λ t. t.0 < e.next_id) e.spawn_queue
      × (limit ≤ e.next_id)

  -- With ids left, a new task gets an id that no task has, and the executor stays sound.
  pub spawn-IsSound :
      (limit : ℕ) (future : F) (e : Executor F W)
      → IsSound limit e
      → suc e.next_id < u64_mod
      → IsSound limit (spawn future e) × ((spawn future e).next_id ≡ suc e.next_id)
  unfolding spawn
  spawn-IsSound limit future e (sorted, below, spawned, from, next, le) fits =
      let counted : (e.next_id + 1) % u64_mod ≡ suc e.next_id =
        mod-eq_of_lt (omega arith) ∙ omega arith in
      let later = All-wider e.next_id (suc e.next_id) e.spawn_queue (omega arith) next in
      let wider =
        All-append (λ t. t.0 < suc e.next_id) e.spawn_queue ((e.next_id, future) ∷ []) later
          (omega arith, tt) in
      (
        (
          sorted,
          below,
          IsSorted-last e.next_id future e.spawn_queue next spawned,
          All-append (λ t. limit ≤ t.0) e.spawn_queue ((e.next_id, future) ∷ []) from (le, tt),
          (rw counted wider),
          (rw counted (omega (arith, le))),
        ),
        counted,
      )

  pub spawn_each-IsSound :
      (limit : ℕ) (futures : List F) (e : Executor F W)
      → IsSound limit e
      → e.next_id + length futures < u64_mod
      → IsSound limit (spawn_each futures e)
  unfolding spawn_each
  spawn_each-IsSound limit [] e h fits = h
  spawn_each-IsSound limit (future ∷ futures) e h fits =
      let (sound, counted) = spawn-IsSound limit future e h (omega arith) in
      spawn_each-IsSound limit futures (spawn future e) sound (omega (arith, counted))

  -- What spawning leaves alone.
  pub spawn_each-Same :
      (futures : List F) (e : Executor F W)
      → ((spawn_each futures e).task_waker_list ≡ e.task_waker_list)
        × ((spawn_each futures e).task_queue ≡ e.task_queue)
        × ((spawn_each futures e).polls ≡ e.polls)
        × ((spawn_each futures e).world ≡ e.world)
  unfolding spawn_each spawn
  spawn_each-Same [] e = (refl, refl, refl, refl)
  spawn_each-Same (future ∷ futures) e = spawn_each-Same futures (spawn future e)

  take_each :
      (limit : ℕ) (spawned : List (ℕ × F)) (e : Executor F W)
      → IsSorted e.task_waker_list
      → All (λ t. t.0 < limit) e.task_waker_list
      → IsSorted spawned
      → All (λ t. limit ≤ t.0) spawned
      → All (λ t. t.0 < e.next_id) spawned
      → limit ≤ e.next_id
      → (take_spawned spawned e ≡ record e {
        spawn_queue = [];
        task_waker_list = e.task_waker_list ++ spawned;
        task_queue = e.task_queue ++ map (λ t. t.0) spawned;
      })
        × IsSorted (e.task_waker_list ++ spawned)
        × All (λ t. t.0 < e.next_id) (e.task_waker_list ++ spawned)
  unfolding take_spawned
  take_each limit [] e sorted below _ from next le =
      rw (append-nil e.task_waker_list, append-nil e.task_queue)
        (refl, sorted, All-wider limit e.next_id e.task_waker_list le below)
  take_each limit ((id, f) ∷ spawned) e sorted below up from next le =
      let above = All-wider limit id e.task_waker_list from.0 below in
      let placed = insert_task-above id f e.task_waker_list above in
      let tasks = e.task_waker_list ++ ((id, f) ∷ []) in
      let next_e = record e { task_waker_list = tasks; task_queue = e.task_queue ++ (id ∷ []) } in
      let (rest, order, bound) =
        take_each (suc id) spawned next_e (IsSorted-last id f e.task_waker_list above sorted)
          (All-append (λ t. t.0 < suc id) e.task_waker_list ((id, f) ∷ [])
            (All-wider id (suc id) e.task_waker_list (omega arith) above) (omega arith, tt))
          up.1 up.0 next.1 (omega (arith, next.0)) in
      rw⁻¹
        (
          append_assoc e.task_waker_list ((id, f) ∷ []) spawned,
          append_assoc e.task_queue (id ∷ []) (map (λ t. t.0) spawned),
        )
        (rw placed (rest, order, bound))

  -- What `run_ready_tasks` does first: every spawned task enters the map behind the others, and the
  -- queue behind those that were woken, in the order in which they were spawned.
  pub take_spawned_lem :
      (limit : ℕ) (e : Executor F W)
      → IsSound limit e
      → let after = take_spawned e.spawn_queue e in
        (after ≡ record e {
          spawn_queue = [];
          task_waker_list = e.task_waker_list ++ e.spawn_queue;
          task_queue = e.task_queue ++ map (λ t. t.0) e.spawn_queue;
        })
        × IsSound e.next_id after
  take_spawned_lem limit e (sorted, below, spawned, from, next, le) =
      let (taken, order, bound) =
        take_each limit e.spawn_queue e sorted below spawned from next le in
      (taken, rw taken (order, bound, tt, tt, tt, omega arith))

  stored :
      (limit id : ℕ) (f : F) (p : Polled F W) (e : Executor F W)
      → IsSound limit e
      → find_task id e.task_waker_list ≡ some f
      → IsSound limit (record e {
        task_queue = e.task_queue ++ p.woken;
        task_waker_list = store id p.pending e.task_waker_list;
        world = p.world;
        polls = e.polls ++ (id ∷ []);
      })
  stored limit id f p e (sorted, below, spawned, from, next, le) found = (
    store-IsSorted id p.pending e.task_waker_list sorted,
    store-All (λ n. n < limit) id p.pending e.task_waker_list
        (find_task-All (λ n. n < limit) id f e.task_waker_list found below) below,
    spawned,
    from,
    next,
    le,
  )

  -- A round of the loop for a task in the map polls it once, keeps it with its new future if it is
  -- pending and takes it out if it is ready, leaves the other tasks alone, and queues whom the poll
  -- woke. For an id that is in the map no more, nothing happens.
  pub poll_task-Outcome :
      (poll_future : ℕ → F → W → Polled F W) (limit id : ℕ) (e : Executor F W)
      → IsSound limit e
      → ((find_task id e.task_waker_list ≡ none) × (poll_task poll_future id e ≡ e))
        ⊎ ((f : F) × (find_task id e.task_waker_list ≡ some f)
            × let p = poll_future id f e.world in
              let after = poll_task poll_future id e in
              (find_task id after.task_waker_list ≡ p.pending)
              × ((other : ℕ)
                  → other ≢ id
                  → find_task other after.task_waker_list ≡ find_task other e.task_waker_list)
              × (after.task_queue ≡ e.task_queue ++ p.woken)
              × (after.polls ≡ e.polls ++ (id ∷ []))
              × (e.next_id + length p.spawned < u64_mod → IsSound limit after))
  unfolding poll_task poll_found after_poll
  poll_task-Outcome poll_future limit id e h =
      elim (Option-cases (find_task id e.task_waker_list)) [
        | inl missing ↦ inl (missing, ap (λ o. poll_found poll_future id o e) missing)
        | inr (f, found) ↦
            let p = poll_future id f e.world in
            let ready = record e {
              task_queue = e.task_queue ++ p.woken;
              task_waker_list = store id p.pending e.task_waker_list;
              world = p.world;
              polls = e.polls ++ (id ∷ []);
            } in
            let polled : poll_task poll_future id e ≡ spawn_each p.spawned ready =
              ap (λ o. poll_found poll_future id o e) found in
            let (tasks, queue, polls, _) = spawn_each-Same p.spawned ready in
            let (mine, others) = find-store id p.pending e.task_waker_list h.0 in
            let sound = stored limit id f p e h found in
            inr (
              f,
              found,
              rw polled (
                ap (find_task id) tasks ∙ mine,
                (λ other d. ap (find_task other) tasks ∙ others other d),
                queue,
                polls,
                λ fits. spawn_each-IsSound limit p.spawned ready sound fits,
              ),
            )
      ]
