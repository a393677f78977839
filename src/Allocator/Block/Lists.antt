-- ===== src/Allocator/Block/Lists.antt =====
-- What holds of the lists of free blocks of kernel/src/allocator/block.rs between calls.
use mathlib.Core.Option.{some-injective}
use zoom_os.Prelude.{
  ℕ, zero, suc, ◌%◌, ◌^◌, ◌≤◌, max, ◌≡◌, refl, Option, some, List, [], ◌∷◌, arith, length,
  get_elem?, set, All, subst, sym, ap, ◌∙◌,
}
use zoom_os.Allocator.{Layout}
use zoom_os.Allocator.Align.{mod-pow_of_le, pow_reflects}
use zoom_os.Allocator.Block.{Fallback, BlockHeap, block_sizes, list_index}
use zoom_os.Allocator.Block.Classes.{First, list_index-First, block_power}

-- A list of free blocks of one size: at most 17, each at a multiple of the size.
pub record IsList (size : ℕ) (list : List ℕ) : Type 0 where
  pub bounded : length list ≤ 17
  pub multiples : All (λ p. p % size ≡ 0) list

abbrev pub AreLists : List ℕ → List (List ℕ) → Type 0
AreLists [] [] = Unit {0}
AreLists [] (l ∷ lists) = ⊥
AreLists (s ∷ sizes) [] = ⊥
AreLists (s ∷ sizes) (l ∷ lists) = IsList s l × AreLists sizes lists

pub AreLists-get :
    (sizes : List ℕ) (lists : List (List ℕ)) (i s : ℕ)
    → AreLists sizes lists
    → get_elem? sizes i ≡ some s
    → (l : List ℕ) × (get_elem? lists i ≡ some l) × IsList s l
AreLists-get [] lists i s h e = absurd (cc)
AreLists-get (t ∷ sizes) [] i s h e = absurd h
AreLists-get (t ∷ sizes) (l ∷ lists) zero s h e = (l, refl, ground arith)
AreLists-get (t ∷ sizes) (l ∷ lists) (suc i) s h e = AreLists-get sizes lists i s h.1 e

pub AreLists-set :
    (sizes : List ℕ) (lists : List (List ℕ)) (i s : ℕ) (l : List ℕ)
    → AreLists sizes lists
    → get_elem? sizes i ≡ some s
    → IsList s l
    → AreLists sizes (set lists i l)
AreLists-set [] lists i s l h e v = absurd (cc)
AreLists-set (t ∷ sizes) [] i s l h e v = absurd h
AreLists-set (t ∷ sizes) (k ∷ lists) zero s l h e v = (ground arith, h.1)
AreLists-set (t ∷ sizes) (k ∷ lists) (suc i) s l h e v =
    (h.0, AreLists-set sizes lists i s l h.1 e v)

-- A pointer of the layout's class stands at a multiple of the block size.
abbrev pub IsBlock : Layout → ℕ → Type 0
IsBlock layout p =
    (i s : ℕ) → list_index layout ≡ some i → get_elem? block_sizes i ≡ some s → p % s ≡ 0

-- A multiple of the block size is a multiple of the alignment.
IsBlock-aligned :
    (layout : Layout) (k i s p : ℕ)
    → layout.align ≡ 2 ^ k
    → layout.align ≤ s
    → get_elem? block_sizes i ≡ some s
    → p % s ≡ 0
    → p % layout.align ≡ 0
IsBlock-aligned layout k i s p power small e multiple =
    let (j, s_power, _, _) = block_power i s e in
    let le : k ≤ j = pow_reflects k j (omega arith) in
    subst (λ a. p % a ≡ 0) (sym power)
      (mod-pow_of_le k j p le (subst (λ b. p % b ≡ 0) s_power multiple))

-- The class of a layout with its block size, which is at least the alignment.
pub record Class (layout : Layout) (index size : ℕ) : Type 0 where
  pub chosen : list_index layout ≡ some index
  pub has_size : get_elem? block_sizes index ≡ some size
  pub holds : layout.align ≤ size

pub Class-of :
    (layout : Layout) (index : ℕ)
    → list_index layout ≡ some index
    → (size : ℕ) × Class layout index size
Class-of layout index e =
    let found =
      subst (First (max layout.size layout.align) block_sizes) e (list_index-First layout) in
    (found.0, record { chosen = e; has_size = found.1; holds = omega (arith, found.2) })

module _ {layout : Layout} (k : ℕ) {index size : ℕ} (power : layout.align ≡ 2 ^ k)
    (class : Class layout index size) where
  pub Class-aligned : (p : ℕ) → p % size ≡ 0 → p % layout.align ≡ 0
  Class-aligned p h = IsBlock-aligned layout k index size p power class.holds class.has_size h

pub Class-IsBlock :
    {layout : Layout} {index size : ℕ}
    → Class layout index size
    → (p : ℕ) → p % size ≡ 0
    → IsBlock layout p
Class-IsBlock {size} class p h i s e f =
    let same : size ≡ s = same_size _ _ (class.chosen) e class.has_size f in
    subst (λ b. p % b ≡ 0) same h
  where
    same_size :
        {o : Option ℕ} (i j : ℕ) {s t : ℕ}
        → o ≡ some i
        → o ≡ some j
        → get_elem? block_sizes i ≡ some s
        → get_elem? block_sizes j ≡ some t
        → s ≡ t
    same_size i j {s} {t} e e' f f' =
        let q : i ≡ j = cc in some-injective s t (sym f ∙ ap (get_elem? block_sizes) q ∙ f')

abbrev pub IsValid : (fallback : Fallback) → BlockHeap fallback → Type 0
IsValid fallback h = AreLists block_sizes h.list_heads
