-- ===== src/Sync/Sleep.antt =====
-- Sleeping tasks: kernel/src/util/async/sleep_future.rs and the clock interrupt of
-- kernel/src/interrupts.rs.
pub mod Service
pub mod Wake
pub mod Futures
mod Tests
use zoom_os.Prelude.{
  ℕ, zero, suc, ◌-◌, Bool, true, false, not, Option, none, some, List, [], ◌∷◌, ◌++◌, ltb, leb,
  ◌==◌, if◌then◌else◌, ◌>>=◌,
}
use zoom_os.Word.{wrapping_add}

-- The map of wakers by the tick they wait for. Its keys are `Reverse`d, so the largest tick is
-- first. Wakers are numbers.
abbrev pub Service : Type 0
Service = List (ℕ × List ℕ)

-- The two statics, and every waker that was woken, in order.
pub record Clock : Type 0 where
  pub monotonic_time : ℕ
  pub service : Service
  pub woken : List ℕ

-- `entry(Reverse(tick)).or_default()` and the push.
unfoldable pub push_waker : ℕ → ℕ → Service → Service
push_waker tick waker [] = (tick, waker ∷ []) ∷ []
push_waker tick waker ((time, wakers) ∷ rest) =
    let later = push_waker tick waker rest in
    if tick == time
    then (time, wakers ++ (waker ∷ [])) ∷ rest
    else if ltb time tick
    then (tick, waker ∷ []) ∷ (time, wakers) ∷ rest
    else (time, wakers) ∷ later

unfoldable pub register_sleep : ℕ → ℕ → Clock → Clock
register_sleep tick waker c = record c { service = push_waker tick waker c.service }

-- The test of the early return, on the first key of the map.
unfoldable pub first_later : ℕ → Service → Bool
first_later tick [] = false
first_later tick ((time, wakers) ∷ rest) = ltb tick time

-- What `split_off(&Reverse(tick))` leaves in the map, and what it gives: the ticks up to `tick`.
unfoldable pub kept : ℕ → Service → Service
kept tick [] = []
kept tick ((time, wakers) ∷ rest) =
    let others = kept tick rest in if ltb tick time then (time, wakers) ∷ others else others

unfoldable pub split_off : ℕ → Service → Service
split_off tick [] = []
split_off tick ((time, wakers) ∷ rest) =
    let others = split_off tick rest in if ltb tick time then others else (time, wakers) ∷ others

-- The loops over `done` and its wakers.
unfoldable pub wakers_of : Service → List ℕ
wakers_of [] = []
wakers_of ((time, wakers) ∷ rest) = wakers ++ wakers_of rest

-- `free` tells whether `try_lock` gets the lock; the code panics where it does not.
unfoldable pub wake_sleep : Bool → ℕ → Clock → Option Clock
wake_sleep false tick c = none
wake_sleep true tick c =
    if first_later tick c.service
    then some c
    else some (record c {
      service = kept tick c.service;
      woken = c.woken ++ wakers_of (split_off tick c.service);
    })

-- `clock_interrupt_handler`: the clock counts on, and the old count is the tick to wake for.
unfoldable pub clock_interrupt_handler : Bool → Clock → Option Clock
clock_interrupt_handler free c =
    wake_sleep free c.monotonic_time (record c { monotonic_time = wrapping_add c.monotonic_time 1 })

pub record SleepFuture : Type 0 where
  pub end_tick : ℕ
  pub registered : Bool

-- `ticks` is the duration in ticks, rounded down. The subtraction panics at 0.
unfoldable pub new_sleep : ℕ → Clock → Option SleepFuture
new_sleep ticks c =
    if ltb ticks 1
    then none
    else some (record { end_tick = wrapping_add c.monotonic_time (ticks - 1); registered = false })

-- `true` is `Poll::Ready`.
unfoldable pub poll_sleep : ℕ → SleepFuture → Clock → Bool × SleepFuture × Clock
poll_sleep waker f c =
    if leb f.end_tick c.monotonic_time
    then (true, f, c)
    else if not f.registered
    then (false, record f { registered = true }, register_sleep f.end_tick waker c)
    else (false, f, c)

-- A number of clock interrupts in a row, with nothing between them.
unfoldable pub interrupts : ℕ → Clock → Option Clock
interrupts zero c = some c
interrupts (suc n) c = clock_interrupt_handler true c >>= λ after. interrupts n after
