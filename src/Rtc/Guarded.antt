-- ===== src/Rtc/Guarded.antt =====
-- The loop of kernel/src/rtc.rs that keeps a read of the date apart from the chip's updates.
use zoom_os.Prelude.{
  ℕ, zero, suc, ◌+◌, ◌≤◌, ◌≡◌, refl, false, some, some-injective, arith, Bool-cases, inl, inr, sym,
}
use zoom_os.Rtc.{Chip, update_in_progress, update_guarded_op}

module _ {A : Type 0} (chip : Chip) (f : ℕ → A) where
  -- What the loop gives was read by one operation, and no update was in progress at the access
  -- right before its first and at the one right after its last.
  update_guarded_op-Quiet :
      (fuel t : ℕ) (result : A)
      → update_guarded_op fuel chip f t ≡ some result
      → (s : ℕ) × (t ≤ s)
        × (result ≡ f (s + 1))
        × (update_in_progress chip s ≡ false)
        × (update_in_progress chip (s + 10) ≡ false)
  unfolding update_guarded_op
  update_guarded_op-Quiet zero t result e = absurd cc
  update_guarded_op-Quiet (suc fuel) t result e = elim (Bool-cases (update_in_progress chip t)) [
    | inl busy ↦
        let again : update_guarded_op fuel chip f (t + 1) ≡ some result = ground arith in
        later (t + 1) (omega arith) (update_guarded_op-Quiet fuel (t + 1) result again)
    | inr quiet ↦ elim (Bool-cases (update_in_progress chip (t + 10))) [
      | inl spoiled ↦
          let retry : update_guarded_op fuel chip f (t + 11) ≡ some result = ground arith in
          later (t + 11) (omega arith) (update_guarded_op-Quiet fuel (t + 11) result retry)
      | inr still ↦
          let read : some (f (t + 1)) ≡ some result = ground arith in
          (t, omega arith, sym (some-injective (f (t + 1)) result read), quiet, still)
    ]
  ]
    where
      later :
          (u : ℕ)
          → t ≤ u
          → ((s : ℕ) × (u ≤ s)
              × (result ≡ f (s + 1))
              × (update_in_progress chip s ≡ false)
              × (update_in_progress chip (s + 10) ≡ false))
          → (s : ℕ) × (t ≤ s)
            × (result ≡ f (s + 1))
            × (update_in_progress chip s ≡ false)
            × (update_in_progress chip (s + 10) ≡ false)
      later u le (s, behind, rest, before, after) =
          (s, omega (arith, le, behind), rest, before, after)

  -- If the chip is quiet from some time on, the loop ends.
  update_guarded_op-Ends :
      (fuel t quiet_from : ℕ)
      → ((s : ℕ) → quiet_from ≤ s → update_in_progress chip s ≡ false)
      → quiet_from ≤ t + fuel
      → (result : A) × (update_guarded_op (suc fuel) chip f t ≡ some result)
  unfolding update_guarded_op
  update_guarded_op-Ends zero t quiet_from quiet enough =
      let calm = quiet t (omega arith) in
      let still = quiet (t + 10) (omega arith) in (f (t + 1), (rw (calm, still) refl))
  update_guarded_op-Ends (suc fuel) t quiet_from quiet enough =
      elim (Bool-cases (update_in_progress chip t)) [
        | inl busy ↦
            let (result, done) =
              update_guarded_op-Ends fuel (t + 1) quiet_from quiet (omega arith) in
            (result, (rw busy done))
        | inr calm ↦ elim (Bool-cases (update_in_progress chip (t + 10))) [
          | inl spoiled ↦
              let (result, done) =
                update_guarded_op-Ends fuel (t + 11) quiet_from quiet (omega arith) in
              (result, (rw (calm, spoiled) done))
          | inr still ↦ (f (t + 1), (rw (calm, still) refl))
        ]
      ]

  -- If the chip is quiet from some time on, the loop ends after so many attempts, and what it gives
  -- was read by one operation with no update in progress at the access right before its first one and
  -- at the one right after its last.
  pub update_guarded_op_lem :
      (fuel t quiet_from : ℕ)
      → ((s : ℕ) → quiet_from ≤ s → update_in_progress chip s ≡ false)
      → quiet_from ≤ t + fuel
      → (result : A) × (s : ℕ) × (update_guarded_op (suc fuel) chip f t ≡ some result)
        × (t ≤ s)
        × (result ≡ f (s + 1))
        × (update_in_progress chip s ≡ false)
        × (update_in_progress chip (s + 10) ≡ false)
  update_guarded_op_lem fuel t quiet_from quiet enough =
      let (result, done) = update_guarded_op-Ends fuel t quiet_from quiet enough in
      let (s, behind, read, before, after) = update_guarded_op-Quiet (suc fuel) t result done in
      (result, s, done, behind, read, before, after)
