-- ===== src/Memory/Smart/Coalesce.antt =====
-- `SmartFrameAllocator::coallesce` of kernel/src/memory.rs: sorting, joining and filtering ranges.
use native.Mathlib.Nat.{le_of_lt}
use zoom_os.Prelude.{
  ℕ, suc, ◌≤◌, ◌<◌, ◌≡◌, ◌⊎◌, inl, inr, none, some, true, not, List, [], ◌∷◌, ◌++◌, arith, leb,
  ◌==◌, All, All-append, All-imp, All-if, Bool-cases, leb→le,
}
use zoom_os.Memory.{Range}
use zoom_os.Memory.Smart.{Itertools, insert, sort_by_start, join, non_empty, coallesce}

-- Each range ends before all later ones start.
abbrev pub InOrder : List Range → Type 0
InOrder [] = Unit {0}
InOrder (r ∷ ranges) = (r.start ≤ r.end) × All (λ s. r.end ≤ s.start) ranges × InOrder ranges

-- No range is empty, and no two touch.
abbrev pub IsNormal : List Range → Type 0
IsNormal [] = Unit {0}
IsNormal (r ∷ ranges) = (r.start < r.end) × All (λ s. r.end < s.start) ranges × IsNormal ranges

-- `x` lies on one side of `y`, and a `y` at its left starts before it.
abbrev pub Beside : Range → Range → Type 0
Beside x y =
    (x.start ≤ x.end)
    × (y.start ≤ y.end)
    × ((x.end ≤ y.start) ⊎ ((y.end ≤ x.start) × (y.start < x.start)))

-- In any order, no two ranges overlap, and an empty range at the start of another one comes first.
abbrev pub Scattered : List Range → Type 0
Scattered [] = Unit {0}
Scattered (r ∷ ranges) = (r.start ≤ r.end) × All (Beside r) ranges × Scattered ranges

-- Sorting: a range that is beside those in order comes into order.
All-insert :
    (P : Range → Type 0) (x : Range) (ranges : List Range)
    → P x
    → All P ranges
    → All P (insert x ranges)
unfolding insert
All-insert P x [] p h = (p, tt)
All-insert P x (y ∷ ranges) p h = elim (Bool-cases (leb x.start y.start)) [
  | inl first ↦ rw first (p, h)
  | inr later ↦ rw later (h.0, All-insert P x ranges p h.1)
]

insert-InOrder :
    (x : Range) (ranges : List Range)
    → x.start ≤ x.end
    → All (Beside x) ranges
    → InOrder ranges
    → InOrder (insert x ranges)
unfolding insert
insert-InOrder x [] v h o = (v, tt, tt)
insert-InOrder x (y ∷ ranges) v h o = elim (Bool-cases (leb x.start y.start)) [
  | inl first ↦
      let before : x.end ≤ y.start = omega (arith, h.0, leb→le _ _ first) in
      rw first (v, (before, All-imp (λ s q. omega (arith, before, o.0, q)) ranges o.1), o)
  | inr later ↦
      let below : y.start < x.start = ground (arith, later) in
      rw later (
        o.0,
        All-insert _ x ranges (omega (arith, h.0, below)) o.1,
        insert-InOrder x ranges v h.1 o.2,
      )
]

pub All-sort :
    (P : Range → Type 0) (ranges : List Range) → All P ranges → All P (sort_by_start ranges)
unfolding sort_by_start
All-sort P [] h = tt
All-sort P (x ∷ ranges) h = All-insert P x _ h.0 (All-sort P ranges h.1)

-- The block between the two ends has no byte in common with the range.
abbrev pub Apart : Range → Range → Type 0
Apart p r = (p.end ≤ r.start) ⊎ (r.end ≤ p.start)

-- Sorting puts the ranges and one that was appended in order.
sort_by_start-InOrder :
    (ranges : List Range) (p : Range)
    → p.start < p.end
    → Scattered ranges
    → All (Apart p) ranges
    → InOrder (sort_by_start (ranges ++ p ∷ []))
unfolding sort_by_start insert
sort_by_start-InOrder [] p v o h = (le_of_lt v, tt, tt)
sort_by_start-InOrder (x ∷ ranges) p v o h =
    insert-InOrder x (sort_by_start (ranges ++ p ∷ [])) o.0
      (All-sort (Beside x) (ranges ++ p ∷ [])
        (All-append (Beside x) ranges (p ∷ []) o.1 ((o.0, le_of_lt v, p_side h.0), tt)))
      (sort_by_start-InOrder ranges p v o.2 h.1)
  where
    p_side : Apart p x → (x.end ≤ p.start) ⊎ ((p.end ≤ x.start) × (p.start < x.start))
    p_side (inl q) = inr (q, omega (arith, q, v))
    p_side (inr q) = inl q

join-touching :
    (x y : Range)
    → (x.end == y.start) ≡ true
    → join x y ≡ some (record { start = x.start; end = y.end })
unfolding join
join-touching x y h = rw h

join-apart : (x y : Range) → x.start ≤ x.end → y.start ≤ y.end → x.end < y.start → join x y ≡ none
unfolding join
join-apart x y p q h = ground arith

-- In order, and no two touch, but some may be empty.
abbrev Separated : List Range → Type 0
Separated [] = Unit {0}
Separated (r ∷ ranges) = (r.start ≤ r.end) × All (λ s. r.end < s.start) ranges × Separated ranges

All-non_empty : (P : Range → Type 0) (ranges : List Range) → All P ranges → All P (non_empty ranges)
unfolding non_empty
All-non_empty P [] h = tt
All-non_empty P (r ∷ ranges) h =
    let later = All-non_empty P ranges h.1 in
    All-if P _ _ (not (r.start == r.end)) (λ _. (h.0, later)) later

non_empty-IsNormal : (ranges : List Range) → Separated ranges → IsNormal (non_empty ranges)
unfolding non_empty
non_empty-IsNormal [] s = tt
non_empty-IsNormal (r ∷ ranges) s = elim (Bool-cases (r.start == r.end)) [
  | inl empty ↦ rw empty (non_empty-IsNormal ranges s.2)
  | inr full ↦
      rw full (ground (arith, full, s.0), All-non_empty _ ranges s.1, non_empty-IsNormal ranges s.2)
]

module _ (itertools : Itertools) where
  open itertools use {coalesce, coalesce-nil, coalesce-one, coalesce-join, coalesce-keep}

  -- Joining ranges in order leaves ranges in order of which no two touch. A bound from below on the
  -- starts carries over.
  coalesce-Separated :
      (x : Range) (ranges : List Range) (low : ℕ)
      → InOrder (x ∷ ranges)
      → low ≤ x.start
      → Separated (coalesce join (x ∷ ranges))
        × All (λ s. low ≤ s.start) (coalesce join (x ∷ ranges))
  coalesce-Separated x [] low o l = rw (coalesce-one join x) ((o.0, tt, tt), (l, tt))
  coalesce-Separated x (y ∷ ranges) low o l = elim (Bool-cases (x.end == y.start)) [
    | inl touch ↦
        let joined : Range = record { start = x.start; end = y.end } in
        rw (coalesce-join join x y joined ranges (join-touching x y touch))
          (coalesce-Separated joined ranges low (omega (arith, o), o.2.1, o.2.2) l)
    | inr gap ↦
        let apart : x.end < y.start = ground (arith, gap, o.1.0) in
        let (rest, above) = coalesce-Separated y ranges (suc x.end) o.2 apart in
        rw (coalesce-keep join x y ranges (join-apart x y o.0 o.2.0 apart))
          ((o.0, above, rest), (l, All-imp (λ s q. omega (arith, l, o.0, q)) _ above))
  ]

  coalesce_list-Separated :
      (ranges : List Range) → InOrder ranges → Separated (coalesce join ranges)
  coalesce_list-Separated [] o = rw (coalesce-nil join) tt
  coalesce_list-Separated (x ∷ ranges) o = (coalesce-Separated x ranges 0 o (omega arith)).0

  -- Sorted, joined and filtered, the ranges with an appended one are in order, non-empty and apart.
  pub coallesce-IsNormal :
      (ranges : List Range) (p : Range)
      → p.start < p.end
      → Scattered ranges
      → All (Apart p) ranges
      → IsNormal (coallesce itertools (ranges ++ p ∷ []))
  unfolding coallesce
  coallesce-IsNormal ranges p v o h =
      non_empty-IsNormal _ (coalesce_list-Separated _ (sort_by_start-InOrder ranges p v o h))
