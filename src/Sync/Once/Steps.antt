-- ===== src/Sync/Once/Steps.antt =====
-- The exchange in `try_init_inner` of kernel/src/util/once.rs for each state of the cell.
use zoom_os.Prelude.{Bool, true, false, ◌≡◌}
use zoom_os.Sync.Once.{Cell, exchanging, claimed, returned, step, on_error}

module _ {A : Type 0} where
  pub step-fails :
      (c : Cell A) (val : A) → c.status ≡ 0 → step true val exchanging c ≡ (exchanging, c)
  unfolding step on_error
  step-fails c val e = simp e

  pub step-claims :
      (c : Cell A) (val : A)
      → c.status ≡ 0
      → step false val exchanging c ≡ (claimed, record c { status = 1 })
  unfolding step on_error
  step-claims c val e = simp e

  pub step-spins :
      (c : Cell A) (val : A) (spurious : Bool)
      → c.status ≡ 1
      → step spurious val exchanging c ≡ (exchanging, c)
  unfolding step on_error
  step-spins c val spurious e = simp e

  pub step-returns :
      (c : Cell A) (val : A) (spurious : Bool)
      → c.status ≡ 2
      → step spurious val exchanging c ≡ (returned, c)
  unfolding step on_error
  step-returns c val spurious e = simp e
