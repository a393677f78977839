-- ===== src/Paging/Translate/Tables.antt =====
-- What tables in memory stand for, and that the walk of kernel/src/memory/mapping.rs reads it off.
use native.Mathlib.Nat.{mul-le-mul_right, pow-suc}
use zoom_os.Prelude.{
  ℕ, zero, suc, ◌+◌, ◌*◌, ◌/◌, ◌%◌, ◌^◌, ◌≤◌, ◌<◌, ◌≡◌, refl, ap, sym, ◌⊎◌, inl, inr, Option, none,
  some, List, [], ◌∷◌, arith, All, length,
}
use zoom_os.Paging.{Addresses}
use zoom_os.Paging.Translate.{
  EntryFrame, ok, frame_not_present, Indexes, walk, with_offset, translate_addr,
}

-- The number of the page that the indexes lead to.
abbrev pub number : List ℕ → ℕ
number [] = 0
number (i ∷ indexes) = i * 512 ^ length indexes + number indexes

-- What the tables say of an address.
abbrev pub frame_and_offset : ℕ → Option ℕ → Option ℕ
frame_and_offset page_offset none = none
frame_and_offset page_offset (some frame) = some (frame + page_offset)

module _ (addresses : Addresses) (read : ℕ → ℕ → EntryFrame) (offset : ℕ) where
  -- The tables from `frame` on, of so many levels and with no huge page, stand for a map from page
  -- numbers to frames.
  abbrev pub Represents : ℕ → ℕ → (ℕ → Option ℕ) → Type 0
  Represents zero frame pages = pages 0 ≡ some frame
  Represents (suc levels) frame pages =
      (virt : ℕ) × (addresses.plus offset frame ≡ some virt)
      × ((i : ℕ)
          → i < 512
          → ((read virt i ≡ frame_not_present)
              × ((k : ℕ) → k < 512 ^ levels → pages (i * 512 ^ levels + k) ≡ none))
            ⊎ ((next : ℕ) × (read virt i ≡ ok next)
                × Represents levels next (λ k. pages (i * 512 ^ levels + k))))

  number-lt :
      (indexes : List ℕ) → All (λ i. i < 512) indexes → number indexes < 512 ^ length indexes
  number-lt [] small = omega arith
  number-lt (i ∷ indexes) small =
      let scaled : i * 512 ^ length indexes ≤ 511 * 512 ^ length indexes =
        mul-le-mul_right (512 ^ length indexes) (omega (arith, small.0)) in
      omega (arith, number-lt indexes small.1, pow-suc 512 (length indexes), scaled)

  pub walk_lem :
      (indexes : List ℕ) (frame : ℕ) (pages : ℕ → Option ℕ)
      → All (λ i. i < 512) indexes
      → Represents (length indexes) frame pages
      → walk addresses read offset indexes frame ≡ some (pages (number indexes))
  unfolding walk
  walk_lem [] frame pages small h = ap some (sym h)
  walk_lem (i ∷ indexes) frame pages small (virt, reached, entries) = elim (entries i small.0) [
    | inl (absent, unmapped) ↦
        rw (reached, walk, absent)
          (ap some (sym (unmapped (number indexes) (number-lt indexes small.1))))
    | inr (next, present, below) ↦
        rw (reached, walk, present)
          (walk_lem indexes next (λ k. pages (i * 512 ^ length indexes + k)) small.1 below)
  ]

  offset_lem :
      (page_offset : ℕ) (o : Option ℕ)
      → ((frame : ℕ) → o ≡ some frame → frame + page_offset < 2 ^ 52)
      → with_offset addresses read page_offset o ≡ some (frame_and_offset page_offset o)
  offset_lem page_offset none low = refl
  offset_lem page_offset (some frame) low =
      rw (addresses.physical-some (frame + page_offset) (low frame refl)) refl

  -- Where the tables, with no huge page, stand for a map of pages, every address translates without a
  -- panic: to the frame of its page with the offset in the page added, or to None where the page has
  -- no frame.
  pub translate_addr_lem :
      (indexes : Indexes) (level_4_table_frame addr : ℕ) (pages : ℕ → Option ℕ)
      → Represents 4 level_4_table_frame pages
      → ((n frame : ℕ) → pages n ≡ some frame → frame + 4096 ≤ 2 ^ 52)
      → translate_addr addresses read indexes level_4_table_frame addr offset
        ≡ some (frame_and_offset (addr % 4096) (pages (addr / 4096 % 2 ^ 36)))
  unfolding translate_addr
  translate_addr_lem indexes frame addr pages tables low =
      rw
        (
          walk_lem path frame pages small tables,
          translate_addr,
          at_page,
          indexes.page_offset_lem addr,
        )
        (offset_lem (addr % 4096) (pages (addr / 4096 % 2 ^ 36))
          (λ f e. omega (arith, low (addr / 4096 % 2 ^ 36) f e)))
    where
      path : List ℕ
      path =
          indexes.index 4 addr
          ∷ indexes.index 3 addr
          ∷ indexes.index 2 addr
          ∷ indexes.index 1 addr
          ∷ []

      small : All (λ i. i < 512) path
      small = omega (
        arith,
        indexes.index_lem 4 addr,
        indexes.index_lem 3 addr,
        indexes.index_lem 2 addr,
        indexes.index_lem 1 addr,
      )

      at_page : number path ≡ addr / 4096 % 2 ^ 36
      at_page = omega (
        arith,
        indexes.index_lem 4 addr,
        indexes.index_lem 3 addr,
        indexes.index_lem 2 addr,
        indexes.index_lem 1 addr,
      )
