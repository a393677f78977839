-- ===== src/Memory/Smart/Init.antt =====
-- `SmartFrameAllocator::init` of kernel/src/memory.rs.
use native.Mathlib.Nat.{mod-eq_of_lt}
use zoom_os.Word.{wrapping_add}
use zoom_os.Prelude.{
  ℕ, ◌+◌, ◌^◌, ◌≤◌, ◌++◌, ◌↔◌, iff_refl, true, Bool-cases, ◌≡◌, refl, ◌⊎◌, inl, inr, some, none, ap,
  sym, some-injective, false, List, [], ◌∷◌, arith, All, Option-cases,
}
use zoom_os.Memory.{Range, MemoryRegion, range_of, Frames}
use zoom_os.Memory.Boot.{Boot}
use zoom_os.Memory.Smart.{left_over, init, allocate_frame}

-- The range is that of a region of the list which is not usable.
abbrev pub IsReserved : List MemoryRegion → Range → Type 0
IsReserved [] range = ⊥
IsReserved (r ∷ regions) range =
    ((range ≡ range_of r) × (r.usable ≡ false)) ⊎ IsReserved regions range

abbrev pub IsAmong : Range → List Range → Type 0
IsAmong range [] = ⊥
IsAmong range (r ∷ ranges) = (range ≡ r) ⊎ IsAmong range ranges

⊎-behind_left : {A B C D : Type 0} → A ↔ (C ⊎ D) → (B ⊎ A) ↔ ((B ⊎ C) ⊎ D)
⊎-behind_left {A} {B} {C} {D} (f, g) = (there, back)
  where
    spread : C ⊎ D → (B ⊎ C) ⊎ D
    spread (inl c) = inl (inr c)
    spread (inr d) = inr d

    there : B ⊎ A → (B ⊎ C) ⊎ D
    there (inl b) = inl (inl b)
    there (inr a) = spread (f a)

    back : (B ⊎ C) ⊎ D → B ⊎ A
    back (inl (inl b)) = inl b
    back (inl (inr c)) = inr (g (inl c))
    back (inr d) = inr (g (inr d))

IsAmong-append :
    (range : Range) (xs ys : List Range)
    → IsAmong range (xs ++ ys) ↔ (IsAmong range xs ⊎ IsAmong range ys)
IsAmong-append range [] ys = (inr, λ o. elim o [ inl h ↦ absurd h | inr h ↦ h ])
IsAmong-append range (x ∷ xs) ys = ⊎-behind_left (IsAmong-append range xs ys)

left_over-IsReserved :
    (regions : List MemoryRegion) (range : Range)
    → IsAmong range (left_over regions) ↔ IsReserved regions range
unfolding left_over
left_over-IsReserved [] range = iff_refl
left_over-IsReserved (r ∷ regions) range =
    let (f, g) = left_over-IsReserved regions range in
    elim (Bool-cases r.usable) [
      | inl usable ↦
          rw usable (
            (λ h. inr (f h)),
            (λ o. elim o [ inl bad ↦ absurd (differ (sym bad.1)) | inr h ↦ g h ]),
          )
      | inr reserved ↦ rw reserved (
        (λ o. elim o [ inl e ↦ inl (e, refl) | inr h ↦ inr (f h) ]),
        (λ o. elim o [ inl bad ↦ inl bad.0 | inr h ↦ inr (g h) ]),
      )
    ]
  where
    differ : ¬ (false ≡ true)
    differ e = cc

-- The ranges with a last one.
at_end :
    (regions : List MemoryRegion) (last range : Range)
    → IsAmong range (left_over regions ++ last ∷ [])
      ↔ ((some last ≡ some range) ⊎ IsReserved regions range)
at_end regions last range =
    let (f, g) = IsAmong-append range (left_over regions) (last ∷ []) in
    let (f', g') = left_over-IsReserved regions range in
    (
      λ h. elim (f h) [
        | inl a ↦ inr (f' a)
        | inr o ↦ elim o [ inl e ↦ inl (ap some (sym e)) | inr nothing ↦ absurd nothing ]
      ],
      λ o. elim o [
        | inl e ↦ g (inr (inl (sym (some-injective last range e))))
        | inr h ↦ g (inl (g' h))
      ],
    )

no_current :
    (regions : List MemoryRegion) (range : Range)
    → IsAmong range (left_over regions) ↔ ((none ≡ some range) ⊎ IsReserved regions range)
no_current regions range =
    let (f, g) = left_over-IsReserved regions range in
    (λ h. inr (f h), λ o. elim o [ inl bad ↦ absurd (apart bad) | inr h ↦ g h ])
  where
    apart : ¬ (none ≡ some range)
    apart e = cc

init-IsReserved :
    (b : Boot) (range : Range)
    → IsAmong range (init b)
      ↔ ((b.current_region ≡ some range) ⊎ IsReserved b.memory_map_iter range)
unfolding init
init-IsReserved b range = elim (Option-cases b.current_region) [
  | inl e ↦ rw (e, init) (no_current b.memory_map_iter range)
  | inr (last, e) ↦ rw (e, init) (at_end b.memory_map_iter last range)
]

left_over-skipped :
    (before rest : List MemoryRegion) (r : MemoryRegion)
    → All (λ q. q.usable ≡ true) before
    → r.usable ≡ false
    → left_over (before ++ r ∷ rest) ≡ range_of r ∷ left_over rest
unfolding left_over
left_over-skipped [] rest r skipped reserved = rw reserved refl
left_over-skipped (q ∷ before) rest r (usable, skipped) reserved =
    rw usable (left_over-skipped before rest r skipped reserved)

first-allocate_frame :
    (frames : Frames) (size : ℕ) (r : Range) (ranges : List Range)
    → size ≤ 2 ^ 52
    → r.start + size ≤ r.end
    → r.end ≤ 2 ^ 52
    → (allocate_frame frames size (r ∷ ranges)).0 ≡ some (frames.containing_address size r.start)
unfolding allocate_frame
first-allocate_frame frames size r ranges small fits end = ground (arith, no_wrap)
  where
    no_wrap : wrapping_add r.start size ≡ r.start + size
    no_wrap = mod-eq_of_lt (omega arith)

-- The allocator starts with the rest of the region that the first allocator was in and with the
-- regions behind it that are not usable, and with no others. So, if only usable ones stand before
-- one that is not, and that has room and lies within 52 bits, the first frame handed out is that of
-- its start.
pub allocate_frame-init :
    (frames : Frames) (size : ℕ) (b : Boot) (before rest : List MemoryRegion) (r : MemoryRegion)
    → b.memory_map_iter ≡ before ++ r ∷ rest
    → All (λ q. q.usable ≡ true) before
    → r.usable ≡ false
    → size ≤ 2 ^ 52
    → r.start + size ≤ r.end
    → r.end ≤ 2 ^ 52
    → ((allocate_frame frames size (init b)).0 ≡ some (frames.containing_address size r.start))
      × ((range : Range)
          → IsAmong range (init b)
            ↔ ((b.current_region ≡ some range) ⊎ IsReserved b.memory_map_iter range))
unfolding init
allocate_frame-init frames size b before rest r e skipped reserved small fits end = (
  elim (Option-cases b.current_region) [
    | inl gone ↦
        rw (gone, init, e, left_over-skipped before rest r skipped reserved)
          (first-allocate_frame frames size (range_of r) (left_over rest) small fits end)
    | inr (last, current) ↦
        rw (current, init, e, left_over-skipped before rest r skipped reserved)
          (first-allocate_frame frames size (range_of r) (left_over rest ++ last ∷ []) small fits
            end)
  ],
  init-IsReserved b,
)
