-- ===== src/Sync/IntMutex/Spin.antt =====
-- `spin_lock` of `IntMutex` in kernel/src/util/async/mutex.rs.
use zoom_os.Prelude.{ℕ, zero, suc, ◌≡◌, refl, Bool, true, false, List, [], ◌∷◌, none, some, arith}
use zoom_os.Sync.IntMutex.{Cpu, try_lock, try_lock_inner, spin_lock, drop}
use zoom_os.Sync.IntMutex.Pairs.{try_lock_fails, drop-try_lock}

-- As many exchanges that fail for no reason, and then one that does not.
abbrev pub failures : ℕ → List Bool
failures zero = true ∷ []
failures (suc n) = false ∷ failures n

pub spurious : (m : ℕ) (c : Cpu) → (try_lock false m c).0 ≡ false
unfolding try_lock try_lock_inner
spurious m c = ground arith

pub taken : (m : ℕ) (c : Cpu) → c.locked m ≡ false → (try_lock true m c).0 ≡ true
unfolding try_lock try_lock_inner
taken m c free = ground arith

held : (exchanged : Bool) (m : ℕ) (c : Cpu) → c.locked m ≡ true → (try_lock exchanged m c).0 ≡ false
unfolding try_lock try_lock_inner
held exchanged m c locked = ground arith

spin_lock-failures :
    (n m : ℕ) (c : Cpu)
    → c.locked m ≡ false
    → spin_lock (failures n) m c ≡ some (try_lock true m c).1
unfolding spin_lock
spin_lock-failures zero m c free = rw (taken m c free) refl
spin_lock-failures (suc n) m c free =
    rw (spurious m c, try_lock_fails false m c (spurious m c)) (spin_lock-failures n m c free)

spin_lock-held :
    (attempts : List Bool) (m : ℕ) (c : Cpu) → c.locked m ≡ true → spin_lock attempts m c ≡ none
unfolding spin_lock
spin_lock-held [] m c locked = refl
spin_lock-held (exchanged ∷ attempts) m c locked =
    rw (held exchanged m c locked, try_lock_fails exchanged m c (held exchanged m c locked))
      (spin_lock-held attempts m c locked)

-- With interrupts on and no guard alive: a free lock is taken after any number of exchanges that
-- fail for no reason, with interrupts off until its guard is dropped, and then all is as before. A
-- lock that is held, by code that cannot run in the meantime, is never taken.
drop-spin_lock :
    (n m : ℕ) (c : Cpu)
    → c.interrupts ≡ true
    → c.num_guards ≡ 0
    → (c.locked m ≡ false
        → (guarded : Cpu) × (spin_lock (failures n) m c ≡ some guarded)
          × (guarded.interrupts ≡ false)
          × (guarded.locked m ≡ true)
          × ((drop m guarded).interrupts ≡ true)
          × ((drop m guarded).num_guards ≡ 0)
          × ((drop m guarded).locked m ≡ false))
      × (c.locked m ≡ true → (attempts : List Bool) → spin_lock attempts m c ≡ none)
drop-spin_lock n m c on none_alive = (
  λ free.
      let (off, locked, on_again, none_left, unlocked) = drop-try_lock m c on none_alive free in
      (
        (try_lock true m c).1,
        spin_lock-failures n m c free,
        off,
        locked,
        on_again,
        none_left,
        unlocked,
      ),
  λ locked attempts. spin_lock-held attempts m c locked,
)
