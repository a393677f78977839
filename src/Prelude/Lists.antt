-- ===== src/Prelude/Lists.antt =====
-- Lists measured and indexed by native numbers, under the library's names.
use Prim.Native.Nat.{ℕ, zero, suc, ◌+◌}
use mathlib.Core.Logic.{◌⊎◌, inl, inr}
use mathlib.Core.Path.{◌≡◌, refl, sym, ap, subst}
use mathlib.Core.List.{List, [], ◌∷◌, ◌++◌}
use mathlib.Core.Option.{Option, none, some, some-injective}
use mathlib.Core.Bool.{Bool, true, false}
use native.Mathlib.Omega.{arith}
use native.Mathlib.Decide.{ℕ_discrete}
use zoom_os.Prelude.Tests.{if◌then◌else◌}

-- Every element has the property.
abbrev pub All {ℓ κ} : {A : Type ℓ} → (A → Type κ) → List A → Type κ
All P [] = Unit
All P (x ∷ xs) = P x × All P xs

-- The number is in the list.
abbrev pub IsIn : ℕ → List ℕ → Type 0
IsIn n [] = ⊥
IsIn n (x ∷ xs) = (n ≡ x) ⊎ IsIn n xs

pub IsIn-left : (n : ℕ) (xs ys : List ℕ) → IsIn n xs → IsIn n (xs ++ ys)
IsIn-left n [] ys h = absurd h
IsIn-left n (x ∷ xs) ys (inl e) = inl e
IsIn-left n (x ∷ xs) ys (inr h) = inr (IsIn-left n xs ys h)

pub IsIn-right : (n : ℕ) (xs ys : List ℕ) → IsIn n ys → IsIn n (xs ++ ys)
IsIn-right n [] ys h = h
IsIn-right n (x ∷ xs) ys h = inr (IsIn-right n xs ys h)

pub IsIn-cases : (n : ℕ) (xs : List ℕ) → IsIn n xs ⊎ (¬ IsIn n xs)
IsIn-cases n [] = inr (λ h. h)
IsIn-cases n (x ∷ xs) = elim (ℕ_discrete n x) [
  | yes e ↦ inl (inl e)
  | no d ↦ elim (IsIn-cases n xs) [
    | inl h ↦ inl (inr h)
    | inr out ↦ inr (λ h. elim h [ inl e ↦ d e | inr k ↦ out k ])
  ]
]

pub All-IsIn {ℓ} : (P : ℕ → Type ℓ) (n : ℕ) (xs : List ℕ) → All P xs → IsIn n xs → P n
All-IsIn P n [] h k = absurd k
All-IsIn P n (x ∷ xs) h (inl e) = subst P (sym e) h.0
All-IsIn P n (x ∷ xs) h (inr k) = All-IsIn P n xs h.1 k

module _ {ℓ} {A : Type ℓ} where
  abbrev pub length : List A → ℕ
  length [] = 0
  length (x ∷ xs) = suc (length xs)

  abbrev pub get_elem? : List A → ℕ → Option A
  get_elem? [] i = none
  get_elem? (x ∷ xs) zero = some x
  get_elem? (x ∷ xs) (suc i) = get_elem? xs i

  -- A write out of bounds changes nothing.
  abbrev pub set : List A → ℕ → A → List A
  set [] i v = []
  set (x ∷ xs) zero v = v ∷ xs
  set (x ∷ xs) (suc i) v = x ∷ set xs i v

  pub length-append : (xs ys : List A) → length (xs ++ ys) ≡ length xs + length ys
  length-append [] ys = omega arith
  length-append (x ∷ xs) ys = omega (arith, length-append xs ys)

  pub All-append {κ} : (P : A → Type κ) (xs ys : List A) → All P xs → All P ys → All P (xs ++ ys)
  All-append P [] ys hx hy = hy
  All-append P (x ∷ xs) ys hx hy = (hx.0, All-append P xs ys hx.1 hy)

  pub All-get_elem? {κ} :
      (P : A → Type κ) (xs : List A) (i : ℕ) {x : A} → All P xs → get_elem? xs i ≡ some x → P x
  All-get_elem? P [] i h e = absurd (cc)
  All-get_elem? P (y ∷ xs) zero {x} h e = subst P (some-injective y x e) h.0
  All-get_elem? P (y ∷ xs) (suc i) h e = All-get_elem? P xs i h.1 e

  pub set-set : (xs : List A) (i : ℕ) (v w : A) → set (set xs i v) i w ≡ set xs i w
  set-set [] i v w = refl
  set-set (x ∷ xs) zero v w = refl
  set-set (x ∷ xs) (suc i) v w = ap (◌∷◌ x) (set-set xs i v w)

  pub set-get_elem? : (xs : List A) (i : ℕ) {v : A} → get_elem? xs i ≡ some v → set xs i v ≡ xs
  set-get_elem? [] i e = refl
  set-get_elem? (x ∷ xs) zero e = cc
  set-get_elem? (x ∷ xs) (suc i) e = ap (◌∷◌ x) (set-get_elem? xs i e)

  pub get_elem?-set :
      (xs : List A) (i : ℕ) {v w : A} → get_elem? xs i ≡ some v → get_elem? (set xs i w) i ≡ some w
  get_elem?-set [] i e = cc
  get_elem?-set (x ∷ xs) zero e = refl
  get_elem?-set (x ∷ xs) (suc i) e = get_elem?-set xs i e

  pub All-imp {κ μ} :
      {P : A → Type κ} {Q : A → Type μ} (f : (x : A) → P x → Q x) (xs : List A)
      → All P xs
      → All Q xs
  All-imp f [] h = tt
  All-imp f (x ∷ xs) h = (f x h.0, All-imp f xs h.1)

  pub All-if {κ} :
      (P : A → Type κ) (xs ys : List A) (b : Bool)
      → (b ≡ true → All P xs)
      → All P ys
      → All P (if b then xs else ys)
  All-if P xs ys true h k = h refl
  All-if P xs ys false h k = k
