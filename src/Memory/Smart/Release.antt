-- ===== src/Memory/Smart/Release.antt =====
-- `SmartFrameAllocator::deallocate_frame` of kernel/src/memory.rs.
use native.Mathlib.Nat.{mod-eq_of_lt}
use zoom_os.Prelude.{
  iff_refl, iff_trans, ⊎-right, ⊎-behind, ℕ, ◌+◌, ◌≤◌, ◌<◌, ◌≡◌, ◌⊎◌, inl, inr, ◌↔◌, some, List, [],
  ◌∷◌, ◌++◌, arith, leb, ◌==◌, All, All-append, Bool-cases, Option-cases, dec_lt,
}
use zoom_os.Word.{usize_mod}
use zoom_os.Memory.{Range}
use zoom_os.Memory.Smart.{
  Itertools, insert, sort_by_start, join, non_empty, coallesce, deallocate_frame,
}
use zoom_os.Memory.Smart.Allocate.{Covers}
use zoom_os.Memory.Smart.Coalesce.{Scattered, IsNormal, Apart, All-sort, coallesce-IsNormal}

abbrev Has : Range → ℕ → Type 0
Has r a = (r.start ≤ a) × (a < r.end)

abbrev IsProper : Range → Type 0
IsProper r = r.start ≤ r.end

Covers-append :
    (ranges : List Range) (p : Range) (a : ℕ)
    → Covers (ranges ++ p ∷ []) a ↔ (Has p a ⊎ Covers ranges a)
Covers-append [] p a = iff_refl
Covers-append (r ∷ ranges) p a = ⊎-behind (Covers-append ranges p a)

Covers-insert :
    (x : Range) (ranges : List Range) (a : ℕ)
    → Covers (insert x ranges) a ↔ (Has x a ⊎ Covers ranges a)
unfolding insert
Covers-insert x [] a = iff_refl
Covers-insert x (y ∷ ranges) a = elim (Bool-cases (leb x.start y.start)) [
  | inl first ↦ rw first iff_refl
  | inr later ↦ rw later (⊎-behind (Covers-insert x ranges a))
]

Covers-sort : (ranges : List Range) (a : ℕ) → Covers (sort_by_start ranges) a ↔ Covers ranges a
unfolding sort_by_start
Covers-sort [] a = iff_refl
Covers-sort (x ∷ ranges) a =
    iff_trans (Covers-insert x (sort_by_start ranges) a) (⊎-right (Covers-sort ranges a))

abbrev Joined : Range → Range → Range → Type 0
Joined x y z =
    ((x.end ≡ y.start) × (z.start ≡ x.start) × (z.end ≡ y.end))
    ⊎ ((y.end ≡ x.start) × (z.start ≡ y.start) × (z.end ≡ x.end))

join-Joined : (x y z : Range) → join x y ≡ some z → Joined x y z
unfolding join
join-Joined x y z e = elim (Bool-cases (x.end == y.start)) [
  | inl touch ↦ inl (ground arith)
  | inr gap ↦ inr (ground arith)
]

-- Two joined ranges have the bytes of both.
Joined-Has :
    (x y z : Range) (a : ℕ)
    → IsProper x
    → IsProper y
    → Joined x y z
    → IsProper z × (Has z a ↔ (Has x a ⊎ Has y a))
Joined-Has x y z a p q (inl j) = (omega (arith, j), (there, back))
  where
    there : Has z a → Has x a ⊎ Has y a
    there h = elim (dec_lt a x.end) [
      | yes low ↦ inl (omega (arith, j))
      | no high ↦ inr (omega (arith, j))
    ]

    back : Has x a ⊎ Has y a → Has z a
    back (inl h) = omega (arith, j)
    back (inr h) = omega (arith, j)
Joined-Has x y z a p q (inr j) = (omega (arith, j), (there, back))
  where
    there : Has z a → Has x a ⊎ Has y a
    there h = elim (dec_lt a y.end) [
      | yes low ↦ inr (omega (arith, j))
      | no high ↦ inl (omega (arith, j))
    ]

    back : Has x a ⊎ Has y a → Has z a
    back (inl h) = omega (arith, j)
    back (inr h) = omega (arith, j)

⊎_assoc : {A B C D : Type 0} → D ↔ (A ⊎ B) → (D ⊎ C) ↔ (A ⊎ (B ⊎ C))
⊎_assoc {A} {B} {C} {D} (f, g) = (there, back)
  where
    spread : A ⊎ B → A ⊎ (B ⊎ C)
    spread (inl a) = inl a
    spread (inr b) = inr (inl b)

    there : D ⊎ C → A ⊎ (B ⊎ C)
    there (inl d) = spread (f d)
    there (inr c) = inr (inr c)

    back : A ⊎ (B ⊎ C) → D ⊎ C
    back (inl a) = inl (g (inl a))
    back (inr (inl b)) = inl (g (inr b))
    back (inr (inr c)) = inr c

Covers-non_empty : (ranges : List Range) (a : ℕ) → Covers (non_empty ranges) a ↔ Covers ranges a
unfolding non_empty
Covers-non_empty [] a = iff_refl
Covers-non_empty (r ∷ ranges) a = elim (Bool-cases (r.start == r.end)) [
  | inl empty ↦ rw empty (drop_empty r (ground arith) (Covers-non_empty ranges a))
  | inr full ↦ rw full (⊎-right (Covers-non_empty ranges a))
]
  where
    drop_empty : {B C : Type 0} (r : Range) → r.start ≡ r.end → B ↔ C → B ↔ (Has r a ⊎ C)
    drop_empty {B} {C} r e (f, g) = (λ b. inr (f b), back)
      where
        back : Has r a ⊎ C → B
        back (inl h) = absurd (omega (arith, h, e))
        back (inr c) = g c

module _ (itertools : Itertools) where
  open itertools use {coalesce, coalesce-nil, coalesce-one, coalesce-join, coalesce-keep}

  Covers-coalesce :
      (x : Range) (ranges : List Range) (a : ℕ)
      → IsProper x
      → All IsProper ranges
      → Covers (coalesce join (x ∷ ranges)) a ↔ Covers (x ∷ ranges) a
  Covers-coalesce x [] a p h = rw (coalesce-one join x) iff_refl
  Covers-coalesce x (y ∷ ranges) a p h = elim (Option-cases (join x y)) [
    | inl e ↦ rw (coalesce-keep join x y ranges e) (⊎-right (Covers-coalesce y ranges a h.0 h.1))
    | inr (z, e) ↦
        let (proper, has) = Joined-Has x y z a p h.0 (join-Joined x y z e) in
        rw (coalesce-join join x y z ranges e)
          (iff_trans (Covers-coalesce z ranges a proper h.1) (⊎_assoc has))
  ]

  Covers-coalesce_list :
      (ranges : List Range) (a : ℕ)
      → All IsProper ranges
      → Covers (coalesce join ranges) a ↔ Covers ranges a
  Covers-coalesce_list [] a h = rw (coalesce-nil join) iff_refl
  Covers-coalesce_list (x ∷ ranges) a h = Covers-coalesce x ranges a h.0 h.1

  pub Covers-coallesce :
      (ranges : List Range) (a : ℕ)
      → All IsProper ranges
      → Covers (coallesce itertools ranges) a ↔ Covers ranges a
  unfolding coallesce
  Covers-coallesce ranges a h = iff_trans (Covers-non_empty _ a) (
      iff_trans (Covers-coalesce_list (sort_by_start ranges) a (All-sort IsProper ranges h))
        (Covers-sort ranges a))

  Scattered-IsProper : (ranges : List Range) → Scattered ranges → All IsProper ranges
  Scattered-IsProper [] o = tt
  Scattered-IsProper (r ∷ ranges) o = (o.0, Scattered-IsProper ranges o.2)

  -- The ranges stand in any order, no two overlap, and an empty one at the start of another comes
  -- first. Then freeing a frame that no range overlaps, and that does not wrap, adds exactly its bytes to the free ones, and
  -- leaves the ranges sorted, non-empty and with a gap between any two.
  pub deallocate_frame_lem :
      (size frame : ℕ) (ranges : List Range)
      → 0 < size
      → frame + size < usize_mod
      → Scattered ranges
      → All (Apart (record { start = frame; end = frame + size })) ranges
      → IsNormal (deallocate_frame itertools size frame ranges)
        × ((a : ℕ)
            → Covers (deallocate_frame itertools size frame ranges) a
              ↔ (((frame ≤ a) × (a < frame + size)) ⊎ Covers ranges a))
  unfolding deallocate_frame
  deallocate_frame_lem size frame ranges pos small o h = rw (mod-eq_of_lt small) (
    coallesce-IsNormal itertools ranges p (omega arith) o h,
    λ a.
        iff_trans
          (Covers-coallesce (ranges ++ p ∷ []) a
            (All-append IsProper ranges (p ∷ []) (Scattered-IsProper ranges o) (omega arith, tt)))
          (Covers-append ranges p a),
  )
    where
      p : Range
      p = record { start = frame; end = frame + size }
