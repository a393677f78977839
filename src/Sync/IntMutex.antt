-- ===== src/Sync/IntMutex.antt =====
-- `IntMutex` of kernel/src/util/async/mutex.rs on one processor: a lock that turns interrupts off.
pub mod Pairs
pub mod Underflow
pub mod Spin
pub mod Async
mod Tests
use zoom_os.Prelude.{
  List, [], ◌∷◌, Option, none, some, ℕ, ◌+◌, ◌-◌, Bool, true, false, ◌&&◌, ◌==◌, not, if◌then◌else◌,
}
use zoom_os.Word.{wrapping_add, usize_mod}

-- The interrupt flag of the processor, the two statics, and the `locked` of each lock, by a number.
pub record Cpu : Type 0 where
  pub interrupts : Bool
  pub num_guards : ℕ
  pub should_reenable : Bool
  pub locked : ℕ → Bool

abbrev pub update : (ℕ → Bool) → ℕ → Bool → ℕ → Bool
update f m b n = if m == n then b else f n

-- `Mutex::try_lock` as seen by one caller: `exchanged` tells whether the weak compare-exchange,
-- which may fail for no reason, succeeded.
unfoldable pub try_lock_inner : Bool → ℕ → Cpu → Bool × Cpu
try_lock_inner exchanged m c =
    if c.locked m
    then (false, c)
    else if exchanged
    then (true, record c { locked = update c.locked m true })
    else (false, c)

-- The match on `(&ret, enabled)`.
unfoldable pub count : Bool → Bool → Cpu → Cpu
count false true c = record c { interrupts = true }
count true true c = record c { num_guards = wrapping_add c.num_guards 1; should_reenable = true }
count false false c = c
count true false c = c

unfoldable pub try_lock : Bool → ℕ → Cpu → Bool × Cpu
try_lock exchanged m c =
    let enabled = c.interrupts in
    let disabled = (if enabled then record c { interrupts = false } else c) in
    let (taken, after) = try_lock_inner exchanged m disabled in (taken, count taken enabled after)

-- `IntMutexGuard::drop`, before the guard inside it is dropped. `fetch_sub` gives the old number.
unfoldable pub drop_outer : Cpu → Cpu
drop_outer c =
    let guards = c.num_guards in
    let counted = record c { num_guards = wrapping_add guards (usize_mod - 1) } in
    if guards == 1 && c.should_reenable
    then record counted { should_reenable = false; interrupts = true }
    else counted

-- `MutexGuard::drop` stores `false`; the list of wakers is left out here.
unfoldable pub drop_inner : ℕ → Cpu → Cpu
drop_inner m c = record c { locked = update c.locked m false }

-- Rust drops a value by its own `drop`, and then its fields.
unfoldable pub drop : ℕ → Cpu → Cpu
drop m c = drop_inner m (drop_outer c)

-- `spin_lock`, with no other code between its attempts: an attempt for each flag, `none` while the
-- lock is not taken. The line that it prints is left out.
unfoldable pub spin_lock : List Bool → ℕ → Cpu → Option Cpu
spin_lock [] m c = none
spin_lock (exchanged ∷ attempts) m c =
    let (taken, after) = try_lock exchanged m c in
    let later = spin_lock attempts m after in if taken then some after else later

-- `Mutex::force_unlock`: the lock is free, the interrupt flag and the count stay.
unfoldable pub force_unlock : ℕ → Cpu → Cpu
force_unlock m c = record c { locked = update c.locked m false }
