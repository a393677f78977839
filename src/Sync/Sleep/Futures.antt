-- ===== src/Sync/Sleep/Futures.antt =====
-- `SleepFuture` of kernel/src/util/async/sleep_future.rs: when a poll is ready, and that a woken
-- sleeper is.
use native.Mathlib.Nat.{mod-eq_of_lt}
use zoom_os.Prelude.{
  IsIn, IsIn-right, ℕ, ◌+◌, ◌-◌, ◌≤◌, ◌<◌, ◌≡◌, ◌∷◌, refl, ◌∙◌, ◌⊎◌, inl, inr, Bool, true, false,
  some, [], ◌++◌, arith, leb, ltb, Bool-cases, All, leb→le,
}
use zoom_os.Word.{usize_mod, wrapping_add}
use zoom_os.Sync.Sleep.{
  Clock, SleepFuture, new_sleep, poll_sleep, wakers_of, first_later, Service,
  clock_interrupt_handler,
}
use zoom_os.Sync.Sleep.Service.{IsSorted, Waits, register_sleep-Waits}
use zoom_os.Sync.Sleep.Wake.{Waits-IsIn, wake_sleep-Outcome}

module _ (waker e : ℕ) (c : Clock) where
  Polled : Bool → Type 0
  Polled registered =
      let (ready, after, clock) =
        poll_sleep waker (record { end_tick = e; registered = registered }) c in
      ((e ≤ c.monotonic_time) × (ready ≡ true) × (clock ≡ c))
      ⊎ ((c.monotonic_time < e)
          × (ready ≡ false)
          × (after.registered ≡ true)
          × IsSorted clock.service
          × (((registered ≡ true) × (clock ≡ c))
              ⊎ ((registered ≡ false) × Waits waker e clock.service)))

  poll_sleep-Polled : (registered : Bool) → IsSorted c.service → Polled registered
  unfolding poll_sleep Polled
  poll_sleep-Polled registered h = elim (Bool-cases (leb e c.monotonic_time)) [
    | inl reached ↦ rw reached (inl (leb→le e c.monotonic_time reached, refl, refl))
    | inr early ↦ let lt : c.monotonic_time < e = ground arith in pending lt early registered
  ]
    where
      pending : c.monotonic_time < e → leb e c.monotonic_time ≡ false → (b : Bool) → Polled b
      pending lt early true = rw early (inr (lt, refl, refl, h, inl (refl, refl)))
      pending lt early false =
          let added = register_sleep-Waits e waker c h in
          rw early (inr (lt, refl, refl, added.0, inr (refl, added.1)))

-- A poll is ready, and changes nothing, once the clock has reached the end tick. Before that the
-- first poll of a future leaves its waker waiting for the end tick in the sorted map, and later
-- polls change nothing.
pub poll_sleep-Outcome :
    (waker : ℕ) (f : SleepFuture) (c : Clock)
    → IsSorted c.service
    → let (ready, after, clock) = poll_sleep waker f c in
      ((f.end_tick ≤ c.monotonic_time) × (ready ≡ true) × (clock ≡ c))
      ⊎ ((c.monotonic_time < f.end_tick)
          × (ready ≡ false)
          × (after.registered ≡ true)
          × IsSorted clock.service
          × (((f.registered ≡ true) × (clock ≡ c))
              ⊎ ((f.registered ≡ false) × Waits waker f.end_tick clock.service)))
unfolding Polled
poll_sleep-Outcome waker f c h = poll_sleep-Polled waker f.end_tick c f.registered h

-- A sleeper of at least one tick that is polled at once waits for the tick that many less one away,
-- if the clock does not overflow; for one tick it is ready at once.
pub new_sleep-end_tick :
    (ticks : ℕ) (c : Clock)
    → 1 ≤ ticks
    → c.monotonic_time + ticks < usize_mod
    → new_sleep ticks c
      ≡ some (record { end_tick = c.monotonic_time + ticks - 1; registered = false })
unfolding new_sleep
new_sleep-end_tick ticks c some_ticks fits =
    let enough : ltb ticks 1 ≡ false = ground arith in
    let sum : wrapping_add c.monotonic_time (ticks - 1) ≡ c.monotonic_time + ticks - 1 =
      mod-eq_of_lt (omega arith) ∙ omega arith in
    rw (enough, sum) refl

-- In a map with no tick beyond the given one, the first is not later.
first_later-none :
    (tick : ℕ) (service : Service)
    → All (λ e. e.0 ≤ tick) service
    → first_later tick service ≡ false
unfolding first_later
first_later-none tick [] h = refl
first_later-none tick ((time, wakers) ∷ rest) h = let le = h.0 in ground arith

Ready :
    (waker : ℕ) (f : SleepFuture) (c : Clock)
    → f.end_tick ≤ c.monotonic_time
    → (poll_sleep waker f c).0 ≡ true
unfolding poll_sleep
Ready waker f c le = ground arith

Waits-below :
    (waker tick bound : ℕ) (service : Service)
    → All (λ e. e.0 ≤ bound) service
    → Waits waker tick service
    → tick ≤ bound
Waits-below waker tick bound [] h w = absurd w
Waits-below waker tick bound ((time, wakers) ∷ rest) h (inl (e, i)) = omega (arith, h.0, e)
Waits-below waker tick bound ((time, wakers) ∷ rest) h (inr w) =
    Waits-below waker tick bound rest h.1 w

-- An interrupt that finds no tick beyond the clock's in the sorted map wakes whoever waits, and the
-- woken sleeper is ready at its next poll, if the clock does not overflow.
pub clock_interrupt_handler-Ready :
    (waker : ℕ) (f : SleepFuture) (c : Clock)
    → IsSorted c.service
    → All (λ e. e.0 ≤ c.monotonic_time) c.service
    → Waits waker f.end_tick c.service
    → c.monotonic_time + 1 < usize_mod
    → (after : Clock) × (clock_interrupt_handler true c ≡ some after)
      × (after.service ≡ [])
      × IsIn waker after.woken
      × ((poll_sleep waker f after).0 ≡ true)
unfolding clock_interrupt_handler
clock_interrupt_handler-Ready waker f c h all w fits =
    let counted : wrapping_add c.monotonic_time 1 ≡ c.monotonic_time + 1 = mod-eq_of_lt fits in
    let next = record c { monotonic_time = c.monotonic_time + 1 } in
    let after = record next { service = []; woken = c.woken ++ wakers_of c.service } in
    let due = Waits-below waker f.end_tick c.monotonic_time c.service all w in
    let in_woken =
      IsIn-right waker c.woken (wakers_of c.service) (Waits-IsIn waker f.end_tick c.service w) in
    elim (wake_sleep-Outcome c.monotonic_time next h) [
      | inl (_, woken) ↦
          (after, (rw counted woken), refl, in_woken, Ready waker f after (omega (arith, due)))
      | inr (later, _) ↦
          absurd (let no = first_later-none c.monotonic_time c.service all in ground arith)
    ]
