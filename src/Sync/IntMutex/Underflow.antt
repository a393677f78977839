-- ===== src/Sync/IntMutex/Underflow.antt =====
-- What a guard taken with interrupts off does to `NUM_GUARDS` of kernel/src/util/async/mutex.rs.
use zoom_os.Prelude.{ℕ, ◌-◌, ◌≡◌, ◌≢◌, true, false, arith}
use zoom_os.Word.{usize_mod}
use zoom_os.Sync.IntMutex.Pairs.{drop_second}
use zoom_os.Sync.IntMutex.{Cpu, try_lock, try_lock_inner, count, drop, drop_inner, drop_outer}

-- Taken and dropped with interrupts off, as in an interrupt handler, a guard takes the count of
-- guards from 0 to its maximum.
pub drop_uncounted :
    (m : ℕ) (c : Cpu)
    → c.interrupts ≡ false
    → c.num_guards ≡ 0
    → c.locked m ≡ false
    → let after = drop m (try_lock true m c).1 in
      (after.num_guards ≡ usize_mod - 1) × (after.interrupts ≡ false) × (after.locked m ≡ false)
unfolding try_lock try_lock_inner count drop drop_inner drop_outer
drop_uncounted m c off none free = ground arith

-- From then on a guard that is taken and dropped with interrupts on leaves them off.
drop_off :
    (m n : ℕ) (c : Cpu)
    → c.interrupts ≡ false
    → c.num_guards ≡ 0
    → c.locked m ≡ false
    → c.locked n ≡ false
    → let handled = record (drop m (try_lock true m c).1) { interrupts = true } in
      let after = drop n (try_lock true n handled).1 in
      (after.interrupts ≡ false) × (after.num_guards ≡ usize_mod - 1)
unfolding try_lock try_lock_inner count drop drop_inner drop_outer
drop_off m n c off none free_m free_n = ground arith

-- Two free locks and no guard counted. With interrupts on, a second lock that is taken and dropped
-- under the first turns them on while the first is held. With interrupts off, a guard that comes and
-- goes leaves a count from which the next one, with interrupts on again, leaves them off.
pub drop-unbalanced :
    (m n : ℕ) (c : Cpu)
    → m ≢ n
    → c.num_guards ≡ 0
    → c.locked m ≡ false
    → c.locked n ≡ false
    → (c.interrupts ≡ true
        → let after = drop n (try_lock true n (try_lock true m c).1).1 in
          (after.interrupts ≡ true) × (after.locked m ≡ true) × (after.num_guards ≡ 0))
      × (c.interrupts ≡ false
          → let handled = record (drop m (try_lock true m c).1) { interrupts = true } in
            let after = drop n (try_lock true n handled).1 in
            (after.interrupts ≡ false) × (after.num_guards ≡ usize_mod - 1))
drop-unbalanced m n c differ none free_m free_n = (
  λ on. drop_second m n c differ on none free_m free_n,
  λ off. drop_off m n c off none free_m free_n,
)
