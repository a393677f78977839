-- ===== src/Sync/Sleep/Service.antt =====
-- The map of sleeping wakers in kernel/src/util/async/sleep_future.rs: its order, and what a
-- registration adds.
use zoom_os.Prelude.{
  IsIn, IsIn-left, ℕ, ◌<◌, ◌≡◌, refl, ◌⊎◌, ⊎-map, inl, inr, List, [], ◌∷◌, ◌++◌, arith, ltb, ◌==◌,
  All, Bool-cases, ltb→lt, ==_iff,
}
use zoom_os.Sync.Sleep.{Service, Clock, push_waker, register_sleep}

-- The ticks go down.
abbrev pub IsSorted : Service → Type 0
IsSorted [] = Unit {0}
IsSorted ((time, wakers) ∷ rest) = All (λ e. e.0 < time) rest × IsSorted rest

-- The waker waits for the tick.
abbrev pub Waits : ℕ → ℕ → Service → Type 0
Waits waker tick [] = ⊥
Waits waker tick ((time, wakers) ∷ rest) =
    ((tick ≡ time) × IsIn waker wakers) ⊎ Waits waker tick rest

IsIn-last : (waker : ℕ) (wakers : List ℕ) → IsIn waker (wakers ++ (waker ∷ []))
IsIn-last waker [] = inl refl
IsIn-last waker (w ∷ wakers) = inr (IsIn-last waker wakers)

push_waker-All :
    (P : ℕ → Type 0) (tick waker : ℕ) (service : Service)
    → P tick
    → All (λ e. P e.0) service
    → All (λ e. P e.0) (push_waker tick waker service)
unfolding push_waker
push_waker-All P tick waker [] p h = (p, tt)
push_waker-All P tick waker ((time, wakers) ∷ rest) p h = elim (Bool-cases (tick == time)) [
  | inl same ↦ rw same h
  | inr other ↦ elim (Bool-cases (ltb time tick)) [
    | inl less ↦ rw (other, less) (p, h)
    | inr more ↦ rw (other, more) (h.0, push_waker-All P tick waker rest p h.1)
  ]
]

All-below :
    (a b : ℕ) (service : Service) → a < b → All (λ e. e.0 < a) service → All (λ e. e.0 < b) service
All-below a b [] lt h = tt
All-below a b (e ∷ rest) lt h = (omega (arith, h.0), All-below a b rest lt h.1)

push_waker-IsSorted :
    (tick waker : ℕ) (service : Service)
    → IsSorted service
    → IsSorted (push_waker tick waker service)
unfolding push_waker
push_waker-IsSorted tick waker [] h = (tt, tt)
push_waker-IsSorted tick waker ((time, wakers) ∷ rest) h = elim (Bool-cases (tick == time)) [
  | inl same ↦ rw same h
  | inr other ↦ elim (Bool-cases (ltb time tick)) [
    | inl less ↦
        let lt = ltb→lt time tick less in
        rw (other, less) ((lt, All-below time tick rest lt h.0), h)
    | inr more ↦
        let below : tick < time = ground arith in
        rw (other, more)
          (
            push_waker-All (λ t. t < time) tick waker rest below h.0,
            push_waker-IsSorted tick waker rest h.1,
          )
  ]
]

push_waker-Waits :
    (tick waker : ℕ) (service : Service) → Waits waker tick (push_waker tick waker service)
unfolding push_waker
push_waker-Waits tick waker [] = inl (refl, inl refl)
push_waker-Waits tick waker ((time, wakers) ∷ rest) = elim (Bool-cases (tick == time)) [
  | inl same ↦ rw same (inl ((==_iff tick time).0 same, IsIn-last waker wakers))
  | inr other ↦ elim (Bool-cases (ltb time tick)) [
    | inl less ↦ rw (other, less) (inl (refl, inl refl))
    | inr more ↦ rw (other, more) (inr (push_waker-Waits tick waker rest))
  ]
]

push_waker-keeps :
    (tick waker t w : ℕ) (service : Service)
    → Waits w t service
    → Waits w t (push_waker tick waker service)
unfolding push_waker
push_waker-keeps tick waker t w [] h = absurd h
push_waker-keeps tick waker t w ((time, wakers) ∷ rest) h = elim (Bool-cases (tick == time)) [
  | inl same ↦ rw same (⊎-map (λ (e, i). (e, IsIn-left w wakers (waker ∷ []) i)) (λ r. r) h)
  | inr other ↦ elim (Bool-cases (ltb time tick)) [
    | inl less ↦ rw (other, less) (inr h)
    | inr more ↦ rw (other, more) (⊎-map (λ e. e) (push_waker-keeps tick waker t w rest) h)
  ]
]

-- A registration keeps the ticks in order, its waker waits for its tick, and whoever waited before
-- still waits.
pub register_sleep-Waits :
    (tick waker : ℕ) (c : Clock)
    → IsSorted c.service
    → let after = (register_sleep tick waker c).service in
      IsSorted after × Waits waker tick after × ((t w : ℕ) → Waits w t c.service → Waits w t after)
unfolding register_sleep
register_sleep-Waits tick waker c h = (
  push_waker-IsSorted tick waker c.service h,
  push_waker-Waits tick waker c.service,
  λ t w. push_waker-keeps tick waker t w c.service,
)
