-- ===== src/Allocator/Block/Classes.antt =====
-- The size classes of kernel/src/allocator/block.rs.
use native.Mathlib.Nat.{add_comm}
use native.Mathlib.Numerals.{add-one}
use zoom_os.Prelude.{
  ℕ, zero, suc, ◌+◌, ◌^◌, ◌≤◌, ◌<◌, max, ◌≡◌, refl, Option, none, some, List, [], ◌∷◌, arith, ltb,
  leb, Bool-cases, length, get_elem?, All, All-get_elem?, ◌>>=◌, inl, inr,
}
use zoom_os.Allocator.{Layout}
use zoom_os.Allocator.Block.{block_sizes, position, list_index, count_nodes, node_length, is_full}

-- The first size that is large enough, or none is.
abbrev pub First : ℕ → List ℕ → Option ℕ → Type 0
First required sizes none = (i : ℕ) (s : ℕ) → get_elem? sizes i ≡ some s → s < required
First required sizes (some i) =
    (s : ℕ) × (get_elem? sizes i ≡ some s)
    × (required ≤ s)
    × ((j t : ℕ) → j < i → get_elem? sizes j ≡ some t → t < required)

First-skip :
    (required s : ℕ) (sizes : List ℕ) (o : Option ℕ)
    → s < required
    → First required sizes o
    → First required (s ∷ sizes) (o >>= λ i. some (suc i))
First-skip required s sizes none h f = all
  where
    all : (i t : ℕ) → get_elem? (s ∷ sizes) i ≡ some t → t < required
    all zero t e = ground arith
    all (suc i) t e = f i t e
First-skip required s sizes (some i) h f = (f.0, f.1, f.2, before)
  where
    before : (j t : ℕ) → j < suc i → get_elem? (s ∷ sizes) j ≡ some t → t < required
    before zero t q e = ground arith
    before (suc j) t q e = f.3 j t (omega arith) e

position-First : (required : ℕ) (sizes : List ℕ) → First required sizes (position required sizes)
position-First required [] = λ i s e. cc
position-First required (s ∷ sizes) = elim (Bool-cases (leb required s)) [
  | inl fits ↦ rw (fits, position) (s, refl, ground arith, λ j t q e. absurd (omega arith))
  | inr small ↦
      rw (small, position)
        (First-skip required s sizes _ (ground arith) (position-First required sizes))
]

-- `list_index` picks the smallest block size that holds both the size and the alignment of the
-- layout, and there is none exactly when one of them is above the largest block size.
pub list_index-First :
    (layout : Layout) → First (max layout.size layout.align) block_sizes (list_index layout)
unfolding list_index
list_index-First layout = position-First (max layout.size layout.align) block_sizes

-- The block sizes are powers of two.
pub block_power :
    (i s : ℕ) → get_elem? block_sizes i ≡ some s → (k : ℕ) × (s ≡ 2 ^ k) × (3 ≤ k) × (k ≤ 11)
block_power i s e =
    All-get_elem? (λ s. (k : ℕ) × (s ≡ 2 ^ k) × (3 ≤ k) × (k ≤ 11)) block_sizes i powers e
  where
    exponent : (k : ℕ) → 3 ≤ k → k ≤ 11 → (j : ℕ) × (2 ^ k ≡ 2 ^ j) × (3 ≤ j) × (j ≤ 11)
    exponent k low high = (k, refl, low, high)

    powers : All (λ s. (k : ℕ) × (s ≡ 2 ^ k) × (3 ≤ k) × (k ≤ 11)) block_sizes
    powers = (
      exponent 3 (omega arith) (omega arith),
      (
        exponent 4 (omega arith) (omega arith),
        (
          exponent 5 (omega arith) (omega arith),
          (
            exponent 6 (omega arith) (omega arith),
            (
              exponent 7 (omega arith) (omega arith),
              (
                exponent 9 (omega arith) (omega arith),
                (
                  exponent 10 (omega arith) (omega arith),
                  (exponent 11 (omega arith) (omega arith), tt),
                ),
              ),
            ),
          ),
        ),
      ),
    )

count_nodes-length : (count : ℕ) (next : List ℕ) → count_nodes count next ≡ count + length next
unfolding count_nodes
count_nodes-length count [] = omega arith
count_nodes-length count (n ∷ next) = omega (arith, count_nodes-length (count + 1) next)

pub is_full_lem : (list : List ℕ) → is_full list ≡ ltb 16 (length list)
unfolding is_full node_length
is_full_lem [] = refl
is_full_lem (n ∷ next) = rw (count_nodes-length 1 next, add_comm 1 (length next), add-one)
