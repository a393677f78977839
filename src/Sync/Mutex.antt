-- ===== src/Sync/Mutex.antt =====
-- `Mutex` of kernel/src/util/async/mutex.rs and `WakerList` of waker_list.rs beside it, with many
-- threads and tasks at once. The value inside is left out.
pub mod Exclusive
pub mod Wakeups
pub mod Handover
mod Tests
use zoom_os.Prelude.{ℕ, Bool, true, false, not, ◌&&◌, List, [], ◌∷◌, ◌++◌, if◌then◌else◌, write}

-- `try_lock`, the loop of `spin_lock`, and the loop of the async `lock`.
pub data Mode : Type 0 where
  try : Mode
  spin : Mode
  async : Mode

-- Where a thread stands: at the load or the exchange of `try_lock`, with a guard, in the drop of
-- the guard after the store, at the load or the registration of a poll of `MutexLocker`, or pending.
pub data Pc : Type 0 where
  idle : Pc
  loading : Mode → Pc
  exchanging : Mode → Pc
  holds : Pc
  notifying : Pc
  polling : Pc
  registering : Pc
  pending : Pc

-- Wakers are thread numbers; `woken` tells which threads have been woken since their last poll.
pub record Mutex : Type 0 where
  pub locked : Bool
  pub wakeup_list : List ℕ
  pub woken : ℕ → Bool
  pub pcs : ℕ → Pc

unfoldable pub new : Mutex
new = record { locked = false; wakeup_list = []; woken = λ t. false; pcs = λ t. idle }

unfoldable pub set_pc : ℕ → Pc → Mutex → Mutex
set_pc t pc m = record m { pcs = write m.pcs t pc }

-- `WakerList::register` and `WakerList::notify_one`.
unfoldable pub register : ℕ → Mutex → Mutex
register t m = record m { wakeup_list = m.wakeup_list ++ (t ∷ []) }

unfoldable pub notify : List ℕ → Mutex → Mutex
notify [] m = m
notify (t ∷ queue) m = record m { wakeup_list = queue; woken = write m.woken t true }

unfoldable pub notify_one : Mutex → Mutex
notify_one m = notify m.wakeup_list m

-- Where a call goes when `try_lock` gives no guard.
unfoldable pub on_fail : Mode → Pc
on_fail try = idle
on_fail spin = loading spin
on_fail async = polling

-- Where a call starts.
unfoldable pub on_begin : Mode → Pc
on_begin try = loading try
on_begin spin = loading spin
on_begin async = polling

-- The next access of the thread `t` to the mutex. `spurious` tells whether the weak exchange fails
-- for no reason. A pending task is polled again once it is woken.
unfoldable pub advance_from : Bool → ℕ → Pc → Mutex → Mutex
advance_from spurious t (loading mode) m =
    set_pc t (if m.locked then on_fail mode else exchanging mode) m
advance_from spurious t (exchanging mode) m =
    if not m.locked && not spurious
    then set_pc t holds (record m { locked = true })
    else set_pc t (on_fail mode) m
advance_from spurious t polling m = set_pc t (if m.locked then registering else loading async) m
advance_from spurious t registering m = set_pc t pending (register t m)
advance_from spurious t pending m =
    if m.woken t then set_pc t polling (record m { woken = write m.woken t false }) else m
advance_from spurious t notifying m = set_pc t idle (notify_one m)
advance_from spurious t idle m = m
advance_from spurious t holds m = m

unfoldable pub advance : Bool → ℕ → Mutex → Mutex
advance spurious t m = advance_from spurious t (m.pcs t) m

-- A thread that does nothing with the mutex calls one of the three functions.
unfoldable pub begin_from : Mode → ℕ → Pc → Mutex → Mutex
begin_from mode t idle m = set_pc t (on_begin mode) m
begin_from mode t pc m = m

unfoldable pub begin : Mode → ℕ → Mutex → Mutex
begin mode t m = begin_from mode t (m.pcs t) m

-- A thread with a guard drops it: the store comes first, and the notification is the next access.
unfoldable pub release_from : ℕ → Pc → Mutex → Mutex
release_from t holds m = set_pc t notifying (record m { locked = false })
release_from t pc m = m

unfoldable pub release : ℕ → Mutex → Mutex
release t m = release_from t (m.pcs t) m

-- `force_unlock` is unsafe, and no step of the relation below.
unfoldable pub force_unlock : Mutex → Mutex
force_unlock m = record m { locked = false }

pub data Step : Type 0 where
  begins : Mode → ℕ → Step
  advances : Bool → ℕ → Step
  releases : ℕ → Step

unfoldable pub take_step : Step → Mutex → Mutex
take_step (begins mode t) m = begin mode t m
take_step (advances spurious t) m = advance spurious t m
take_step (releases t) m = release t m

-- The states that the threads reach.
pub data IsReached : Mutex → Type 0 where
  at_start : IsReached new
  after_step : (m : Mutex) (s : Step) → IsReached m → IsReached (take_step s m)
