-- ===== src/Memory/Boot/Sequence.antt =====
-- `BootInfoFrameAllocator` of kernel/src/memory.rs against the sequence of frames that it owes.
use native.Mathlib.Nat.{mod-eq_of_lt}
use zoom_os.Prelude.{
  ℕ, zero, suc, ◌+◌, ◌-◌, ◌/◌, ◌%◌, ◌^◌, ◌≤◌, ◌<◌, ◌≡◌, refl, Option, none, some, true, List, [],
  ◌∷◌, ◌++◌, arith, leb, leb→le, Option-cases, if◌then◌else◌, All, Bool-cases, inl, inr, ap, subst,
  some-injective,
}
use zoom_os.Word.{wrapping_add}
use zoom_os.Memory.{Range, MemoryRegion, range_of, page_size, Frames}
use zoom_os.Memory.Boot.{Boot, from_region, next_region, allocate_frame}

-- Physical addresses have 52 bits, and regions start with a page.
pub record IsPhysical (r : Range) : Type 0 where
  pub aligned : r.start % page_size ≡ 0
  pub start_bits : r.start ≤ 2 ^ 52
  pub end_bits : r.end ≤ 2 ^ 52

abbrev pub IsMap : List MemoryRegion → Type 0
IsMap = All (λ r. IsPhysical (range_of r))

abbrev pub IsBoot : Boot → Type 0
IsBoot b = IsMap b.memory_map_iter × ((r : Range) → b.current_region ≡ some r → IsPhysical r)

-- The starts of `n` pages from an address on.
unfoldable pub pages : ℕ → ℕ → List ℕ
pages zero start = []
pages (suc n) start = start ∷ pages n (start + page_size)

-- The whole pages of a range, from its start.
abbrev pub range_pages : Range → List ℕ
range_pages r = pages ((r.end - r.start) / page_size) r.start

unfoldable pub usable_pages : List MemoryRegion → List ℕ
usable_pages [] = []
usable_pages (r ∷ regions) =
    let later = usable_pages regions in
    if r.usable then range_pages (range_of r) ++ later else later

-- What is still to be handed out.
abbrev pub pages_left : Boot → List ℕ
pages_left b = elim b.current_region [
  | some r ↦ range_pages r ++ usable_pages b.memory_map_iter
  | none ↦ usable_pages b.memory_map_iter
]

-- The next frame of a sequence, or none at its end; the state keeps the rest.
abbrev pub Yields : List ℕ → Option ℕ × Boot → Type 0
Yields owed (none, b) = (owed ≡ []) × (pages_left b ≡ []) × IsBoot b
Yields owed (some frame, b) = (owed ≡ frame ∷ pages_left b) × IsBoot b

-- A range with room for a page owes that page, and then those of the rest of it.
range_pages-step :
    (r : Range)
    → r.start + page_size ≤ r.end
    → range_pages r ≡ r.start ∷ range_pages (record r { start = r.start + page_size })
unfolding pages
range_pages-step r fits = rw count_step
  where
    count_step : (r.end - r.start) / page_size ≡ suc ((r.end - (r.start + page_size)) / page_size)
    count_step = omega arith

range_pages-nil : (r : Range) → r.end < r.start + page_size → range_pages r ≡ []
unfolding pages
range_pages-nil r small = rw none_left
  where
    none_left : (r.end - r.start) / page_size ≡ 0
    none_left = omega arith

module _ (frames : Frames) where
  open frames use {containing_address}

  -- The frame of an aligned address.
  at_start : (start : ℕ) → start % page_size ≡ 0 → containing_address page_size start ≡ start
  at_start start aligned = omega (
    arith,
    aligned,
    frames.contains page_size start (omega arith),
    frames.multiple page_size start,
  )

  from_region-Yields :
      (r : Range) (rest : List MemoryRegion) (otherwise : Option ℕ × Boot)
      → IsPhysical r
      → IsMap rest
      → Yields (usable_pages rest) otherwise
      → Yields (range_pages r ++ usable_pages rest) (from_region frames r rest otherwise)
  unfolding from_region
  from_region-Yields r rest otherwise p m y = elim (Bool-cases (leb (r.start + page_size) r.end)) [
    | inl fits ↦
        rw (no_wrap, fits, at_start r.start p.aligned)
          (ap (λ l. l ++ usable_pages rest) (range_pages-step r (leb→le _ _ fits)), (m, kept fits))
    | inr small ↦ rw (no_wrap, small, range_pages-nil r (ground arith)) y
  ]
    where
      no_wrap : wrapping_add r.start page_size ≡ r.start + page_size
      no_wrap = mod-eq_of_lt (omega (arith, p.start_bits))

      kept :
          leb (r.start + page_size) r.end ≡ true
          → (q : Range) → some (record r { start = r.start + page_size }) ≡ some q
          → IsPhysical q
      kept fits q e =
          subst IsPhysical (some-injective (record r { start = r.start + page_size }) q e) (record {
            aligned = omega (arith, p.aligned);
            start_bits = omega (arith, leb→le _ _ fits, p.end_bits);
            end_bits = p.end_bits;
          })

  next_region-Yields :
      (regions : List MemoryRegion)
      → IsMap regions
      → Yields (usable_pages regions) (next_region frames regions)
  unfolding next_region usable_pages
  next_region-Yields [] m = (refl, refl, (m, λ r e. cc))
  next_region-Yields (r ∷ regions) m = elim (Bool-cases r.usable) [
    | inl usable ↦
        rw usable
          (from_region-Yields (range_of r) regions _ m.0 m.1 (next_region-Yields regions m.1))
    | inr other ↦ rw other (next_region-Yields regions m.1)
  ]

  -- Where regions start with a page and lie within 52 bits: a call hands out the next whole page of
  -- the usable regions, in their order, and keeps the pages behind it to be handed out; it hands out none only when
  -- there is no page left.
  pub allocate_frame-Yields :
      (b : Boot) → IsBoot b → Yields (pages_left b) (allocate_frame frames b)
  unfolding allocate_frame
  allocate_frame-Yields b v = elim (Option-cases b.current_region) [
    | inl e ↦ rw e (next_region-Yields b.memory_map_iter v.0)
    | inr (r, e) ↦ rw e (
        from_region-Yields r b.memory_map_iter _ (v.1 r e) v.0
          (next_region-Yields b.memory_map_iter v.0))
  ]
