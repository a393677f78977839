-- ===== src/Sync/IntMutex/Pairs.antt =====
-- Matching calls of `try_lock` and `drop` of `IntMutex` in kernel/src/util/async/mutex.rs.
use zoom_os.Prelude.{ℕ, ◌≡◌, ◌≢◌, Bool, true, false, arith}
use zoom_os.Sync.IntMutex.{Cpu, try_lock, try_lock_inner, count, drop, drop_inner, drop_outer}

-- A lock that is not taken leaves the processor as it was, the interrupt flag included.
pub try_lock_fails :
    (exchanged : Bool) (m : ℕ) (c : Cpu)
    → (try_lock exchanged m c).0 ≡ false
    → (try_lock exchanged m c).1 ≡ c
unfolding try_lock try_lock_inner count
try_lock_fails exchanged m c h = ground arith

-- With no guard alive and interrupts on, taking a lock turns them off, and dropping its guard turns
-- them on again and leaves the count at 0 and the lock free.
pub drop-try_lock :
    (m : ℕ) (c : Cpu)
    → c.interrupts ≡ true
    → c.num_guards ≡ 0
    → c.locked m ≡ false
    → let held = (try_lock true m c).1 in
      (held.interrupts ≡ false)
      × (held.locked m ≡ true)
      × ((drop m held).interrupts ≡ true)
      × ((drop m held).num_guards ≡ 0)
      × ((drop m held).locked m ≡ false)
unfolding try_lock try_lock_inner count drop drop_inner drop_outer
drop-try_lock m c on none free = ground arith

-- While the outer part of the drop has turned interrupts on, the lock is still taken.
pub drop_outer-locked :
    (m : ℕ) (c : Cpu)
    → c.interrupts ≡ true
    → c.num_guards ≡ 0
    → c.locked m ≡ false
    → let dropping = drop_outer (try_lock true m c).1 in
      (dropping.interrupts ≡ true) × (dropping.locked m ≡ true)
unfolding try_lock try_lock_inner count drop_outer
drop_outer-locked m c on none free = ground arith

-- Two locks at once: the second one is taken with interrupts off and so is not counted, and its
-- drop turns interrupts on although the first lock is still held.
pub drop_second :
    (m n : ℕ) (c : Cpu)
    → m ≢ n
    → c.interrupts ≡ true
    → c.num_guards ≡ 0
    → c.locked m ≡ false
    → c.locked n ≡ false
    → let after = drop n (try_lock true n (try_lock true m c).1).1 in
      (after.interrupts ≡ true) × (after.locked m ≡ true) × (after.num_guards ≡ 0)
unfolding try_lock try_lock_inner count drop drop_inner drop_outer
drop_second m n c differ on none free_m free_n = ground arith
