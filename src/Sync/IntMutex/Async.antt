-- ===== src/Sync/IntMutex/Async.antt =====
-- `lock` of `IntMutex` in kernel/src/util/async/mutex.rs: tasks that wait for a lock.
use zoom_os.Prelude.{
  ℕ, zero, suc, ◌≡◌, refl, ap, Bool, true, false, List, [], ◌∷◌, ◌++◌, Option, none, some,
  if◌then◌else◌,
}
use zoom_os.Sync.IntMutex.{Cpu, try_lock, drop}
use zoom_os.Sync.IntMutex.Pairs.{try_lock_fails, drop-try_lock}
use zoom_os.Sync.IntMutex.Spin.{failures, spurious, taken}

-- The processor with the wakers of one lock, and the wakers that have been woken, the last first.
pub record Waited : Type 0 where
  pub cpu : Cpu
  pub wakeup_list : List ℕ
  pub woken : List ℕ

-- A poll of the future that `lock` gives, with no other code in it: whether it is ready. `MutexLocker`
-- registers the waker while the lock is taken; else there is an attempt for each flag, and `none`
-- while the lock is not taken.
unfoldable pub poll_lock : List Bool → ℕ → ℕ → Waited → Option (Bool × Waited)
poll_lock [] waker m s = none
poll_lock (exchanged ∷ attempts) waker m s =
    let (taken, after) = try_lock exchanged m s.cpu in
    let later = poll_lock attempts waker m (record s { cpu = after }) in
    if s.cpu.locked m
    then some (false, record s { wakeup_list = s.wakeup_list ++ (waker ∷ []) })
    else if taken
    then some (true, record s { cpu = after })
    else later

-- `WakerList::notify_one`
unfoldable pub notify_first : List ℕ → Waited → Waited
notify_first [] s = s
notify_first (waker ∷ queue) s = record s { wakeup_list = queue; woken = waker ∷ s.woken }

-- The drop of the guard with the notification at its end.
unfoldable pub drop_and_notify : ℕ → Waited → Waited
drop_and_notify m s =
    let dropped = record s { cpu = drop m s.cpu } in notify_first dropped.wakeup_list dropped

poll_lock-failures :
    (n waker m : ℕ) (s : Waited)
    → s.cpu.locked m ≡ false
    → poll_lock (failures n) waker m s ≡ some (true, record s { cpu = (try_lock true m s.cpu).1 })
unfolding poll_lock
poll_lock-failures zero waker m s free = rw (free, taken m s.cpu free) refl
poll_lock-failures (suc n) waker m s free =
    rw (free, spurious m s.cpu, try_lock_fails false m s.cpu (spurious m s.cpu))
      (poll_lock-failures n waker m s free)

-- With interrupts on, no guard alive and a free lock: a task gets it, after any number of exchanges
-- that fail for no reason, and interrupts are off. A second task that polls meanwhile waits and
-- changes nothing else; the drop turns interrupts on and wakes it, and its next poll gets the lock.
pub poll_lock-drop_and_notify :
    (first second m n k : ℕ) (exchanged : Bool) (attempts : List Bool) (s : Waited)
    → s.cpu.interrupts ≡ true
    → s.cpu.num_guards ≡ 0
    → s.cpu.locked m ≡ false
    → s.wakeup_list ≡ []
    → (held : Waited) × (waiting : Waited) × (again : Waited) × (poll_lock (failures n) first m s
        ≡ some (true, held))
      × (held.cpu.interrupts ≡ false)
      × (poll_lock (exchanged ∷ attempts) second m held ≡ some (false, waiting))
      × (waiting.cpu ≡ held.cpu)
      × ((drop_and_notify m waiting).woken ≡ second ∷ s.woken)
      × ((drop_and_notify m waiting).wakeup_list ≡ [])
      × ((drop_and_notify m waiting).cpu.interrupts ≡ true)
      × (poll_lock (failures k) second m (drop_and_notify m waiting) ≡ some (true, again))
      × (again.cpu.interrupts ≡ false)
      × (again.cpu.locked m ≡ true)
unfolding poll_lock drop_and_notify notify_first
poll_lock-drop_and_notify first second m n k exchanged attempts s on none_alive free nobody =
    let (off, locked, on_again, none_left, unlocked) = drop-try_lock m s.cpu on none_alive free in
    let c = (try_lock true m s.cpu).1 in
    let (off', locked', _, _, _) = drop-try_lock m (drop m c) on_again none_left unlocked in
    let dropped : Waited = record { cpu = drop m c; wakeup_list = []; woken = second ∷ s.woken } in
    (
      record s { cpu = c },
      record { cpu = c; wakeup_list = second ∷ []; woken = s.woken },
      record dropped { cpu = (try_lock true m (drop m c)).1 },
      poll_lock-failures n first m s free,
      off,
      rw locked (
          ap
            (λ queue.
              some
                (false, record { cpu = c; wakeup_list = queue ++ (second ∷ []); woken = s.woken }))
            nobody),
      refl,
      refl,
      refl,
      on_again,
      poll_lock-failures k second m dropped unlocked,
      off',
      locked',
    )
