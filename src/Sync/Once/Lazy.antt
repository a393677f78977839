-- ===== src/Sync/Once/Lazy.antt =====
-- `Lazy` of kernel/src/util/once.rs: a cell with its initialiser.
use zoom_os.Prelude.{ℕ, ◌≡◌, refl, Bool, List, Option, some, ◌>>=◌}
use zoom_os.Sync.Once.{Cell, get_or_init, try_get, get_unchecked, is_init, new}
use zoom_os.Sync.Once.Calls.{attempts, try_init_inner-attempts}

-- `init` is the value that the initialiser gives.
pub record Lazy (A : Type 0) : Type 0 where
  pub cell : Cell A
  pub init : A

module _ {A : Type 0} where
  unfoldable pub new_lazy : A → Lazy A
  new_lazy val = record { cell = new; init = val }

  unfoldable pub lazy_is_init : Lazy A → Bool
  lazy_is_init l = is_init l.cell

  -- `as_ref`, `borrow` and `deref` are this call.
  unfoldable pub force : List Bool → Lazy A → Option (Option A × Lazy A)
  force flags l = get_or_init flags l.init l.cell >>= λ r. some (r.0, record l { cell = r.1 })

  -- The first call runs the initialiser once, after any number of exchanges that fail for no reason,
  -- and gives its value; a later call gives it again and changes nothing.
  pub force_lem :
      (n : ℕ) (val : A) (flags : List Bool)
      → (l : Lazy A) × (force (attempts n) (new_lazy val) ≡ some (some val, l))
        × (l.cell.runs ≡ 1)
        × (force flags l ≡ some (some val, l))
  unfolding force get_or_init new_lazy try_get get_unchecked is_init new
  force_lem n val flags = (
    record { cell = record { inner = some val; status = 2; runs = 1 }; init = val },
    rw (try_init_inner-attempts n val new refl, get_or_init) refl,
    refl,
    refl,
  )
