-- ===== src/Memory/Smart/Allocate.antt =====
-- `SmartFrameAllocator::allocate_frame` of kernel/src/memory.rs.
use zoom_os.Prelude.{
  ℕ, ◌+◌, ◌%◌, ◌^◌, ◌≤◌, ◌<◌, ◌≡◌, refl, ap, subst, ◌≢◌, ⊎-behind, dec_lt, ◌⊎◌, inl, inr, ◌↔◌,
  Option, none, some, List, [], ◌∷◌, ◌++◌, arith, leb, All, Bool-cases, leb→le,
}
use zoom_os.Word.{wrapping_add}
use native.Mathlib.Nat.{mod-eq_of_lt}
use zoom_os.Memory.{Range, Frames}
use zoom_os.Memory.Smart.{Smart, behind, allocate_frame}

-- A range of physical memory, with its ends in order. Addresses have 52 bits.
pub record IsRange (r : Range) : Type 0 where
  pub ordered : r.start ≤ r.end
  pub physical : r.end ≤ 2 ^ 52

-- The address is in one of the ranges.
abbrev pub Covers : List Range → ℕ → Type 0
Covers [] a = ⊥
Covers (r ∷ ranges) a = ((r.start ≤ a) × (a < r.end)) ⊎ Covers ranges a

-- A range with a front of `size` bytes cut off.
Covers-cut :
    (r : Range) (ranges : List Range) (size a : ℕ)
    → r.start + size ≤ r.end
    → Covers (r ∷ ranges) a ↔ (
        ((r.start ≤ a) × (a < r.start + size))
        ⊎ Covers (record r { start = r.start + size } ∷ ranges) a)
Covers-cut r ranges size a fits = (there, back)
  where
    there :
        Covers (r ∷ ranges) a
        → ((r.start ≤ a) × (a < r.start + size))
          ⊎ Covers (record r { start = r.start + size } ∷ ranges) a
    there (inl h) = elim (dec_lt a (r.start + size)) [
      | yes front ↦ inl (h.0, front)
      | no later ↦ inr (inl (omega arith, h.1))
    ]
    there (inr h) = inr (inr h)

    back :
        ((r.start ≤ a) × (a < r.start + size))
          ⊎ Covers (record r { start = r.start + size } ∷ ranges) a
        → Covers (r ∷ ranges) a
    back (inl h) = inl (h.0, omega (arith, h))
    back (inr (inl h)) = inl (omega (arith, h), h.1)
    back (inr (inr h)) = inr h

-- No byte in two of the ranges.
abbrev pub Disjoint : List Range → Type 0
Disjoint [] = Unit {0}
Disjoint (r ∷ ranges) = All (λ q. (r.end ≤ q.start) ⊎ (q.end ≤ r.start)) ranges × Disjoint ranges

-- The byte is in the range, and so in none that is apart from it.
Covers-apart :
    (r : Range) (ranges : List Range) (a : ℕ)
    → All (λ q. (r.end ≤ q.start) ⊎ (q.end ≤ r.start)) ranges
    → r.start ≤ a
    → a < r.end
    → ¬ Covers ranges a
Covers-apart r [] a h low high c = c
Covers-apart r (q ∷ ranges) a (inl right, h) low high (inl c) = omega (arith, right, c)
Covers-apart r (q ∷ ranges) a (inr left, h) low high (inl c) = omega (arith, left, c)
Covers-apart r (q ∷ ranges) a (side, h) low high (inr c) = Covers-apart r ranges a h low high c

module _ (frames : Frames) (size : ℕ) where
  -- The range that a call took `size` bytes from, with those before it and behind it.
  pub record Taken (ranges rest : List Range) (frame : ℕ) : Type 0 where
    pub before : List Range
    pub range : Range
    pub behind : List Range
    pub found : ranges ≡ before ++ range ∷ behind
    pub cut : rest ≡ before ++ record range { start = range.start + size } ∷ behind
    pub first : All (λ q. q.end < q.start + size) before
    pub fits : range.start + size ≤ range.end
    pub at : frame ≡ frames.containing_address size range.start
    pub valid : All IsRange rest
    pub covers :
        (a : ℕ) → Covers ranges a ↔ (((range.start ≤ a) × (a < range.start + size)) ⊎ Covers rest a)
    pub gone : (a : ℕ) → range.start ≤ a → a < range.start + size → ¬ Covers rest a

  abbrev pub Takes : List Range → Option ℕ × Smart → Type 0
  Takes ranges (none, rest) = (rest ≡ ranges) × All (λ r. r.end < r.start + size) ranges
  Takes ranges (some frame, rest) = Taken ranges rest frame

module _ (frames : Frames) (size : ℕ) (size_small : size ≤ 2 ^ 52) where
  behind-Takes :
      (r : Range) (ranges : List Range) (o : Option ℕ × Smart)
      → IsRange r
      → r.end < r.start + size
      → All (λ q. (r.end ≤ q.start) ⊎ (q.end ≤ r.start)) ranges
      → Takes frames size ranges o
      → Takes frames size (r ∷ ranges) (behind r o)
  behind-Takes r ranges (none, rest) v small apart t = (ap (◌∷◌ r) t.0, (small, t.1))
  behind-Takes r ranges (some frame, rest) v small apart t = record {
    before = r ∷ t.before;
    range = t.range;
    behind = t.behind;
    found = ap (◌∷◌ r) t.found;
    cut = ap (◌∷◌ r) t.cut;
    first = (small, t.first);
    fits = t.fits;
    at = t.at;
    valid = (v, t.valid);
    covers = λ a. ⊎-behind (t.covers a);
    gone = kept;
  }
    where
      kept : (a : ℕ) → t.range.start ≤ a → a < t.range.start + size → ¬ Covers (r ∷ rest) a
      kept a low high (inl c) =
          Covers-apart r ranges a apart c.0 c.1 ((t.covers a).1 (inl (low, high)))
      kept a low high (inr c) = t.gone a low high c

  -- The ranges lie within 52 bits, and no two overlap. A frame is that of the start of the first range
  -- that has `size` bytes, which loses these bytes at its start: the other ranges stay, and no range
  -- has the bytes any more. There is no frame, and nothing changes, only if every range is too short.
  pub allocate_frame-Takes :
      (ranges : List Range)
      → All IsRange ranges
      → Disjoint ranges
      → Takes frames size ranges (allocate_frame frames size ranges)
  unfolding allocate_frame
  allocate_frame-Takes [] v disjoint = (refl, tt)
  allocate_frame-Takes (r ∷ ranges) v disjoint =
      let later = behind-Takes r ranges _ v.0 in
      let ih = allocate_frame-Takes ranges v.1 disjoint.1 in
      elim (Bool-cases (leb (r.start + size) r.end)) [
        | inl fits ↦
            let le = leb→le (r.start + size) r.end fits in
            rw (no_wrap, fits)
              (record {
                before = [];
                range = r;
                behind = ranges;
                found = refl;
                cut = refl;
                first = tt;
                fits = le;
                at = refl;
                valid = (record { ordered = le; physical = v.0.physical }, v.1);
                covers = λ a. Covers-cut r ranges size a le;
                gone = left_out le;
              })
        | inr small ↦ rw (no_wrap, small) (later (ground arith) disjoint.0 ih)
      ]
    where
      no_wrap : wrapping_add r.start size ≡ r.start + size
      no_wrap = mod-eq_of_lt (omega (arith, size_small, v.0.ordered, v.0.physical))

      left_out :
          r.start + size ≤ r.end
          → (a : ℕ) → r.start ≤ a
          → a < r.start + size
          → ¬ Covers (record r { start = r.start + size } ∷ ranges) a
      left_out le a low high (inl c) = omega (arith, c, high)
      left_out le a low high (inr c) =
          Covers-apart r ranges a disjoint.0 low (omega (arith, le, high)) c

-- The frame handed out begins below the range, with bytes that were not free, whenever the range
-- has room but does not start at a multiple of the frame size.
pub allocate_frame-below :
    (frames : Frames) (size : ℕ) (r : Range) (ranges : List Range)
    → 0 < size
    → r.start + size ≤ r.end
    → r.end ≤ 2 ^ 52
    → r.start % size ≢ 0
    → (frame : ℕ) × ((allocate_frame frames size (r ∷ ranges)).0 ≡ some frame)
      × (frame < r.start)
      × (frame % size ≡ 0)
unfolding allocate_frame
allocate_frame-below frames size r ranges pos fits small uneven =
    (frame, ground (arith, no_wrap), below (dec_lt frame r.start), frames.multiple size r.start)
  where
    frame : ℕ
    frame = frames.containing_address size r.start

    no_wrap : wrapping_add r.start size ≡ r.start + size
    no_wrap = mod-eq_of_lt (omega arith)

    below : Dec (frame < r.start) → frame < r.start
    below (yes h) = h
    below (no h) =
        let same : frame ≡ r.start = omega (arith, frames.contains size r.start pos) in
        absurd (uneven (subst (λ f. f % size ≡ 0) same (frames.multiple size r.start)))
