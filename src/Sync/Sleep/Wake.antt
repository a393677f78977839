-- ===== src/Sync/Sleep/Wake.antt =====
-- Whom `wake_sleep` of kernel/src/util/async/sleep_future.rs wakes, and what a run of clock
-- interrupts does.
use native.Mathlib.Nat.{mod-eq_of_lt}
use zoom_os.Prelude.{
  IsIn, IsIn-left, IsIn-right, ℕ, zero, suc, ◌+◌, ◌≤◌, ◌<◌, ◌≡◌, refl, ◌∙◌, ◌⊎◌, inl, inr, true,
  false, some, [], ◌∷◌, ◌++◌, arith, ltb, All, Bool-cases, ap,
}
use zoom_os.Word.{usize_mod, wrapping_add}
use zoom_os.Sync.Sleep.{
  Service, Clock, first_later, kept, split_off, wakers_of, wake_sleep, clock_interrupt_handler,
  interrupts,
}
use zoom_os.Sync.Sleep.Service.{IsSorted, Waits}

-- With no tick above it, a split takes everything and leaves nothing.
split_off-All :
    (tick : ℕ) (service : Service)
    → All (λ e. e.0 ≤ tick) service
    → (split_off tick service ≡ service) × (kept tick service ≡ [])
unfolding split_off kept
split_off-All tick [] h = (refl, refl)
split_off-All tick ((time, wakers) ∷ rest) h =
    let later = split_off-All tick rest h.1 in
    let no : ltb tick time ≡ false = ground arith in
    rw no (ap (◌∷◌ (time, wakers)) later.0, later.1)

first_later-All :
    (tick : ℕ) (service : Service)
    → IsSorted service
    → first_later tick service ≡ false
    → All (λ e. e.0 ≤ tick) service
unfolding first_later
first_later-All tick [] h e = tt
first_later-All tick ((time, wakers) ∷ rest) h e =
    let le : time ≤ tick = ground arith in (le, below rest le h.0)
  where
    below : (rest : Service) → time ≤ tick → All (λ e. e.0 < time) rest → All (λ e. e.0 ≤ tick) rest
    below [] le h = tt
    below (e ∷ rest) le h = (omega (arith, h.0), below rest le h.1)

-- A waker that waits for a tick is among the wakers.
pub Waits-IsIn :
    (waker tick : ℕ) (service : Service) → Waits waker tick service → IsIn waker (wakers_of service)
unfolding wakers_of
Waits-IsIn waker tick [] h = absurd h
Waits-IsIn waker tick ((time, wakers) ∷ rest) (inl (e, i)) =
    IsIn-left waker wakers (wakers_of rest) i
Waits-IsIn waker tick ((time, wakers) ∷ rest) (inr r) =
    IsIn-right waker wakers (wakers_of rest) (Waits-IsIn waker tick rest r)

-- With the lock free, `wake_sleep` wakes all wakers, those of the latest tick first, and empties the
-- map, if the latest tick in the sorted map is not later than the given one, and does nothing
-- otherwise.
pub wake_sleep-Outcome :
    (tick : ℕ) (c : Clock)
    → IsSorted c.service
    → (All (λ e. e.0 ≤ tick) c.service
        × (wake_sleep true tick c
            ≡ some (record c { service = []; woken = c.woken ++ wakers_of c.service })))
      ⊎ ((first_later tick c.service ≡ true) × (wake_sleep true tick c ≡ some c))
unfolding wake_sleep
wake_sleep-Outcome tick c h = elim (Bool-cases (first_later tick c.service)) [
  | inl later ↦ inr (later, by_first later)
  | inr none_later ↦
      let all = first_later-All tick c.service h none_later in
      inl (all, by_all none_later (split_off-All tick c.service all))
]
  where
    by_first : first_later tick c.service ≡ true → wake_sleep true tick c ≡ some c
    by_first later = rw later refl

    by_all :
        first_later tick c.service ≡ false
        → (split_off tick c.service ≡ c.service) × (kept tick c.service ≡ [])
        → wake_sleep true tick c
          ≡ some (record c { service = []; woken = c.woken ++ wakers_of c.service })
    by_all none_later (split, rest) = rw (none_later, split, rest) refl

first_later-Waits :
    (tick t w : ℕ) (service : Service)
    → tick < t
    → IsSorted service
    → Waits w t service
    → first_later tick service ≡ true
unfolding first_later
first_later-Waits tick t w [] lt h e = absurd e
first_later-Waits tick t w ((time, wakers) ∷ rest) lt h (inl (e, i)) = ground arith
first_later-Waits tick t w ((time, wakers) ∷ rest) lt h (inr r) =
    let le = above rest r h.0 in ground arith
  where
    above : (rest : Service) → Waits w t rest → All (λ e. e.0 < time) rest → t < time
    above [] e k = absurd e
    above ((u, ws) ∷ rest) (inl (e, i)) k = omega (arith, e, k.0)
    above ((u, ws) ∷ rest) (inr r) k = above rest r k.1

-- As long as one waker waits for a tick that is not reached, a run of clock interrupts counts the
-- clock on and wakes nobody, however many other ticks it passes.
pub interrupts-held_up :
    (n waker tick : ℕ) (c : Clock)
    → IsSorted c.service
    → Waits waker tick c.service
    → c.monotonic_time + n ≤ tick
    → tick < usize_mod
    → interrupts n c ≡ some (record c { monotonic_time = c.monotonic_time + n })
unfolding interrupts clock_interrupt_handler wake_sleep
interrupts-held_up zero waker tick c h w le fits =
    let same : c.monotonic_time ≡ c.monotonic_time + 0 = omega arith in
    ap (λ m. some (record c { monotonic_time = m })) same
interrupts-held_up (suc n) waker tick c h w le fits =
    let later = first_later-Waits c.monotonic_time tick waker c.service (omega arith) h w in
    let counted : wrapping_add c.monotonic_time 1 ≡ c.monotonic_time + 1 =
      mod-eq_of_lt (omega arith) in
    let next = record c { monotonic_time = c.monotonic_time + 1 } in
    let rest = interrupts-held_up n waker tick next h w (omega arith) fits in
    let same : c.monotonic_time + 1 + n ≡ c.monotonic_time + suc n = omega arith in
    rw (later, counted) (rest ∙ ap (λ m. some (record c { monotonic_time = m })) same)
