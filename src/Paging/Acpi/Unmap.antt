-- ===== src/Paging/Acpi/Unmap.antt =====
-- `unmap_physical_region` of kernel/src/acpi.rs after `map_physical_region`.
use zoom_os.Prelude.{
  ℕ, suc, ◌+◌, ◌-◌, ◌*◌, ◌^◌, ◌≤◌, ◌<◌, ◌≡◌, refl, sym, ◌∙◌, ap, inl, inr, List, [], ◌∷◌, none,
  some, arith, All, All-IsIn, IsIn, IsIn-cases, length,
}
use zoom_os.Word.{usize_mod, wrapping_sub}
use zoom_os.Memory.{Frames, page_size}
use zoom_os.Paging.{Addresses, PageRanges, Mapper, Unmapped, Flag, for_each}
use zoom_os.Paging.Pages.{
  pages_from, All-pages_from, IsDistinct, pages_from-IsDistinct, length-pages_from,
}
use zoom_os.Paging.Acpi.{
  PhysicalMapping, KernelAcpi, acpi_flags, map_physical_region, unmap_acpi_page,
  unmap_physical_region,
}
use zoom_os.Paging.Acpi.Map.{
  page_count, first_frame, IsReady, acpi_pages_lem, moved, region, map_physical_region-Aliased,
}

module _ (mapper : Mapper) where
  open mapper use {Machine, frame_of, IsFree}

  -- The pages are unmapped, and the other pages are as they were.
  pub record Cleared (pages : List ℕ) (m m' : Machine) : Type 0 where
    pub gone : All (λ p. frame_of m' p ≡ none) pages
    pub kept : (q : ℕ) → ¬ IsIn q pages → frame_of m' q ≡ frame_of m q

  more :
      (page : ℕ) (pages : List ℕ) (m m₁ m' : Machine)
      → Unmapped IsFree frame_of page m m₁
      → Cleared pages m₁ m'
      → ¬ IsIn page pages
      → Cleared (page ∷ pages) m m'
  more page pages m m₁ m' unmapped rest fresh = record {
    gone = (rest.kept page fresh ∙ unmapped.gone, rest.gone);
    kept = λ q out. rest.kept q (λ i. out (inr i)) ∙ unmapped.kept q (λ e. out (inl e));
  }

  still_mapped :
      (page : ℕ) (entry : ℕ × List Flag) (pages : List ℕ) (m m₁ : Machine)
      → Unmapped IsFree frame_of page m m₁
      → ¬ IsIn page pages
      → All (λ p. frame_of m p ≡ some entry) pages
      → All (λ p. frame_of m₁ p ≡ some entry) pages
  still_mapped page entry [] m m₁ unmapped fresh h = tt
  still_mapped page entry (q ∷ pages) m m₁ unmapped fresh h = (
    unmapped.kept q (λ e. fresh (inl (sym e))) ∙ h.0,
    still_mapped page entry pages m m₁ unmapped (λ i. fresh (inr i)) h.1,
  )

  module _ (addresses : Addresses) (frames : Frames) (ranges : PageRanges) where
    abbrev pub back : (pages : List ℕ) (m : Machine) → KernelAcpi Machine → KernelAcpi Machine
    back pages m a = record a { machine = m; start_addr = a.start_addr - length pages * page_size }

    pub unmap_loop :
        (pages : List ℕ) (frame : ℕ) (a : KernelAcpi Machine)
        → All (λ p. frame_of a.machine p ≡ some (frame, acpi_flags)) pages
        → IsDistinct pages
        → length pages * page_size ≤ a.start_addr
        → a.start_addr < usize_mod
        → (m : Machine) × (for_each (unmap_acpi_page addresses frames ranges mapper) pages a
            ≡ some (back pages m a))
          × Cleared pages a.machine m
    unfolding for_each unmap_acpi_page
    unmap_loop [] frame a mapped distinct low high = (
      a.machine,
      (let whole : a.start_addr ≡ a.start_addr - 0 = omega arith in
          ap (λ s. some (record a { start_addr = s })) whole),
      record { gone = tt; kept = λ q out. refl },
    )
    unmap_loop (page ∷ pages) frame a mapped distinct low high =
        let (m, e, unmapped) = mapper.unmap-Unmapped page a.machine frame acpi_flags mapped.0 in
        let (m', e', rest) =
          unmap_loop pages frame
            (record a { machine = m; start_addr = wrapping_sub a.start_addr page_size })
            (still_mapped page (frame, acpi_flags) pages a.machine m unmapped distinct.0 mapped.1)
            distinct.1 (omega arith) (omega arith) in
        let sum : wrapping_sub a.start_addr page_size - length pages * page_size
            ≡ a.start_addr - suc (length pages) * page_size =
          omega arith in
        (
          m',
          rw (e, for_each, unmap_acpi_page)
              (e' ∙ ap (λ s. some (record a { machine = m'; start_addr = s })) sum),
          more page pages a.machine m m' unmapped rest distinct.0,
        )

    module _ (physical : ℕ) (low : physical < 2 ^ 52) (size : ℕ) (a : KernelAcpi Machine)
        (ready : IsReady mapper size a) where
      -- A region that is given back at once leaves the budget and every page as before it was mapped,
      -- where its pages were free and the budget holds.
      pub unmap-map_physical_region :
          (r : PhysicalMapping) × (b : KernelAcpi Machine) × (c : KernelAcpi Machine)
          × (map_physical_region addresses frames ranges mapper physical size a ≡ some (r, b))
          × (unmap_physical_region addresses frames ranges mapper r b ≡ some c)
          × (c.start_addr ≡ a.start_addr)
          × (c.end_addr_exclusive ≡ a.end_addr_exclusive)
          × ((q : ℕ) → frame_of c.machine q ≡ frame_of a.machine q)
      unfolding unmap_physical_region
      unmap-map_physical_region =
          let pages = pages_from a.start_addr (page_count size) in
          let count = length-pages_from a.start_addr (page_count size) in
          let (m, e, aliased) =
            map_physical_region-Aliased mapper addresses frames ranges physical low size a ready in
          let (m', e', cleared) =
            unmap_loop pages (first_frame mapper addresses frames ranges physical low)
              (moved mapper addresses frames ranges physical low size a ready m) aliased.each
              (pages_from-IsDistinct a.start_addr (page_count size)) (omega (arith, count))
              (omega (arith, ready.fits, ready.room)) in
          (
            region mapper addresses frames ranges physical low size a ready,
            moved mapper addresses frames ranges physical low size a ready m,
            back pages m' (moved mapper addresses frames ranges physical low size a ready m),
            e,
            rw
                (
                  acpi_pages_lem addresses frames ranges a.start_addr size ready.aligned ready.upper
                      (omega (arith, ready.fits, ready.room)),
                  unmap_physical_region,
                )
                e',
            omega (arith, count),
            refl,
            λ q. elim (IsIn-cases q pages) [
              | inl i ↦
                  All-IsIn (λ p. frame_of m' p ≡ none) q pages cleared.gone i
                  ∙ sym (All-IsIn (λ p. frame_of a.machine p ≡ none) q pages unmapped_before i)
              | inr out ↦ cleared.kept q out ∙ aliased.elsewhere q out
            ],
          )
        where
          unmapped_before :
              All (λ p. frame_of a.machine p ≡ none) (pages_from a.start_addr (page_count size))
          unmapped_before =
              All-pages_from (λ p. frame_of a.machine p ≡ none) a.start_addr (page_count size)
                (λ k lt.
                  mapper.free_lem a.machine (a.start_addr + k * page_size)
                    (ready.free (a.start_addr + k * page_size) (omega arith) (omega arith)))
