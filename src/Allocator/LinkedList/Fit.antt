-- ===== src/Allocator/LinkedList/Fit.antt =====
-- `alloc_from_region`, `find_region` and `size_align` of kernel/src/allocator/linked_list.rs.
use native.Mathlib.Nat.{pow-le-pow_right, max-eq_left, max-eq_right, le_of_lt}
use zoom_os.Prelude.{
  ℕ, ◌+◌, ◌%◌, ◌^◌, ◌≤◌, ◌<◌, max, ◌≡◌, ap, ◌⊎◌, inl, inr, List, [], ◌∷◌, Option, none, some, arith,
  dec_lt, All, Option-cases,
}
use zoom_os.Allocator.{Layout, align_up}
use zoom_os.Allocator.Align.{align_up_lem, mod-eight, pow_reflects}
use zoom_os.Allocator.LinkedList.{
  Region, Found, node_size, node_align, end_addr, alloc_from_region, find_region, padded_align,
  padded_size, size_align, behind,
}
use zoom_os.Allocator.LinkedList.Heap.{Unlinked, first, later}

-- What a fit means.
pub record Fits (r : Region) (size align start : ℕ) : Type 0 where
  pub rounded : start ≡ align_up r.start align
  pub ends : start + size ≤ end_addr r
  pub exact_or_roomy : (start + size ≡ end_addr r) ⊎ (start + size + node_size ≤ end_addr r)

alloc_from_region-Fits :
    (r : Region) (size align : ℕ) {start : ℕ}
    → alloc_from_region r size align ≡ some start
    → Fits r size align start
unfolding alloc_from_region
alloc_from_region-Fits r size align h = ground arith

-- The outcome of the search: a fit with the list that is left, or no region that fits.
abbrev pub Search : ℕ → ℕ → List Region → Option Found → Type 0
Search size align free none = All (λ r. alloc_from_region r size align ≡ none) free
Search size align free (some f) =
    Unlinked f.region free f.rest × Fits f.region size align f.alloc_start

Search-behind :
    (size align : ℕ) (r : Region) (free : List Region) (o : Option Found)
    → alloc_from_region r size align ≡ none
    → Search size align free o
    → Search size align (r ∷ free) (behind r o)
Search-behind size align r free none e s = (e, s)
Search-behind size align r free (some f) e s = (later s.0, s.1)

pub find_region-Search :
    (size align : ℕ) (free : List Region) → Search size align free (find_region size align free)
unfolding find_region
find_region-Search size align [] = tt
find_region-Search size align (r ∷ free) = elim (Option-cases (alloc_from_region r size align)) [
  | inr (a, e) ↦ rw (e, find_region) (first, alloc_from_region-Fits r size align e)
  | inl e ↦
      rw (e, find_region) (Search-behind size align r free _ e (find_region-Search size align free))
]

-- A layout as `core::alloc` builds them, small enough that padding cannot fail.
pub record IsLayout (layout : Layout) (power : ℕ) : Type 0 where
  pub power_of_two : layout.align ≡ 2 ^ power
  pub small : layout.size + max layout.align node_align ≤ 2 ^ 63

max-pow : (k : ℕ) → max (2 ^ k) 8 ≡ 2 ^ max k 3
max-pow k = elim (dec_lt k 3) [
  | yes low ↦
      rw (max-eq_right (le_of_lt low))
        (max-eq_right (pow-le-pow_right {n = 2} (omega arith) (le_of_lt low)))
  | no high ↦
      let h : 3 ≤ k = omega arith in
      rw (max-eq_left h) (max-eq_left (pow-le-pow_right {n = 2} (omega arith) h))
]

module _ {layout : Layout} {power : ℕ} (valid : IsLayout layout power) where
  open valid use {power_of_two, small}

  pub padded_align-pow : padded_align layout ≡ 2 ^ max power 3
  unfolding padded_align
  padded_align-pow = rw power_of_two (max-pow power)

  pub power-le : max power 3 ≤ 63
  power-le = pow_reflects _ 63 (omega (arith, max-pow power))

  pub padded_size_lem :
      (padded_size layout % 8 ≡ 0)
      × (node_size ≤ padded_size layout)
      × (layout.size ≤ padded_size layout)
  unfolding padded_size
  padded_size_lem =
      rw padded_align-pow (omega (arith, mod-eight j _ (omega arith) rounds.0, rounds.1, rounds.2))
    where
      j : ℕ
      j = max power 3

      rounds :
          (align_up layout.size (2 ^ j) % 2 ^ j ≡ 0)
          × (layout.size ≤ align_up layout.size (2 ^ j))
          × (align_up layout.size (2 ^ j) < layout.size + 2 ^ j)
      rounds =
          align_up_lem j layout.size power-le
            (omega (arith, small, power_of_two, max-pow power, ap (λ a. max a 8) power_of_two))

  pub size_align_lem : size_align layout ≡ some (padded_size layout, padded_align layout)
  unfolding size_align padded_align
  size_align_lem = ground arith
