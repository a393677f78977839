-- ===== src/Prelude/Writes.antt =====
-- Functions on numbers with one value written over.
use Prim.Native.Nat.{ℕ}
use mathlib.Core.Path.{◌≡◌}
use mathlib.Core.Logic.{◌≢◌, inl, inr}
use native.Mathlib.Omega.{arith}
use zoom_os.Prelude.Tests.{◌==◌, if◌then◌else◌, Bool-cases}

module _ {ℓ} {A : Type ℓ} where
  abbrev pub write : (ℕ → A) → ℕ → A → ℕ → A
  write f t v u = if t == u then v else f u

  pub write-same : (f : ℕ → A) (t : ℕ) (v : A) → write f t v t ≡ v
  write-same f t v = ground arith

  pub write-other : (f : ℕ → A) (t u : ℕ) (v : A) → u ≢ t → write f t v u ≡ f u
  write-other f t u v differ = ground arith

  -- A property that holds of the new value and of the others holds of all values.
  pub write-All {κ} :
      (P : A → Type κ) (f : ℕ → A) (t : ℕ) (v : A)
      → P v
      → ((u : ℕ) → u ≢ t → P (f u))
      → (u : ℕ) → P (write f t v u)
  write-All P f t v p h u = elim (Bool-cases (t == u)) [
    | inl same ↦ rw same p
    | inr other ↦ rw other (h u (λ e. absurd (ground arith)))
  ]
