-- ===== src/Prelude/Iff.antt =====
-- Equivalences between disjunctions.
use mathlib.Core.Logic.{◌↔◌, ◌⊎◌, inl, inr}

pub iff_refl : {A : Type 0} → A ↔ A
iff_refl = (λ a. a, λ a. a)

pub iff_trans : {A B C : Type 0} → A ↔ B → B ↔ C → A ↔ C
iff_trans (f, g) (h, k) = (λ a. h (f a), λ c. g (k c))

pub ⊎-right : {A B C : Type 0} → B ↔ C → (A ⊎ B) ↔ (A ⊎ C)
⊎-right {A} {B} {C} (f, g) = (there, back)
  where
    there : A ⊎ B → A ⊎ C
    there (inl a) = inl a
    there (inr b) = inr (f b)

    back : A ⊎ C → A ⊎ B
    back (inl a) = inl a
    back (inr c) = inr (g c)

pub ⊎-behind : {A B C F : Type 0} → B ↔ (F ⊎ C) → (A ⊎ B) ↔ (F ⊎ (A ⊎ C))
⊎-behind {A} {B} {C} {F} (f, g) = (there, back)
  where
    push : F ⊎ C → F ⊎ (A ⊎ C)
    push (inl f) = inl f
    push (inr c) = inr (inr c)

    there : A ⊎ B → F ⊎ (A ⊎ C)
    there (inl a) = inr (inl a)
    there (inr b) = push (f b)

    back : F ⊎ (A ⊎ C) → A ⊎ B
    back (inl f) = inr (g (inl f))
    back (inr (inl a)) = inl a
    back (inr (inr c)) = inr (g (inr c))

pub ⊎-map : {A B C D : Type 0} → (A → C) → (B → D) → A ⊎ B → C ⊎ D
⊎-map f g (inl a) = inl (f a)
⊎-map f g (inr b) = inr (g b)
