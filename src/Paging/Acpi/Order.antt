-- ===== src/Paging/Acpi/Order.antt =====
-- Regions of kernel/src/acpi.rs that are not given back in the reverse order.
use zoom_os.Prelude.{
  ℕ, ◌+◌, ◌-◌, ◌*◌, ◌%◌, ◌^◌, ◌≤◌, ◌<◌, ◌≡◌, false, refl, sym, ◌∙◌, subst, inl, inr, List, none,
  some, arith, Bool-cases, All, All-IsIn, leb, ◌==◌,
}
use zoom_os.Word.{usize_mod, wrapping_add}
use zoom_os.Memory.{Frames, page_size}
use zoom_os.Paging.{Addresses, PageRanges, Mapper, Flag, for_each}
use zoom_os.Paging.Pages.{
  pages_from, All-pages_from, IsIn-pages_from, pages_from-IsDistinct, length-pages_from, above,
}
use zoom_os.Paging.Acpi.{
  PhysicalMapping, KernelAcpi, acpi_flags, map_acpi_page, map_physical_region,
  unmap_physical_region,
}
use zoom_os.Paging.Acpi.Map.{
  page_count, first_frame, Aliased, IsReady, acpi_pages_lem, region_page-out, moved, region,
  map_physical_region-Aliased,
}
use zoom_os.Paging.Acpi.Unmap.{unmap_loop, back}

module _ (mapper : Mapper) (addresses : Addresses) (frames : Frames) (ranges : PageRanges) where
  open mapper use {Machine, frame_of, IsFree, left}

  -- A region that would start on a page that is mapped.
  occupied :
      (physical size : ℕ) (a : KernelAcpi Machine) (entry : ℕ × List Flag)
      → a.start_addr % page_size ≡ 0
      → usize_mod - 2 ^ 47 ≤ a.start_addr
      → a.start_addr + size < usize_mod
      → physical < 2 ^ 52
      → frame_of a.machine a.start_addr ≡ some entry
      → map_physical_region addresses frames ranges mapper physical size a ≡ none
  unfolding map_physical_region for_each map_acpi_page
  occupied physical size a entry aligned upper room low mapped =
      elim (Bool-cases (leb a.end_addr_exclusive (wrapping_add a.start_addr size))) [
        | inl full ↦ rw (full, map_physical_region) refl
        | inr fits ↦
            rw
              (
                fits,
                map_physical_region,
                acpi_pages_lem addresses frames ranges a.start_addr size aligned upper room,
                refused,
              )
              refl
      ]
    where
      refused :
          for_each
            (map_acpi_page addresses frames ranges mapper physical)
            (pages_from a.start_addr (page_count size))
            (none, a)
          ≡ none
      refused =
          let real : (a.start_addr == 0) ≡ false = ground arith in
          rw
            (
              real,
              for_each,
              map_acpi_page,
              addresses.physical-some physical low,
              mapper.map_to-already a.start_addr (frames.containing_address page_size physical)
                  acpi_flags a.machine entry mapped,
            )
            refl

  module _ (physical₁ physical₂ physical₃ : ℕ) (low₁ : physical₁ < 2 ^ 52)
      (low₂ : physical₂ < 2 ^ 52) (low₃ : physical₃ < 2 ^ 52) (size₁ size₂ size₃ : ℕ)
      (a : KernelAcpi Machine) (ready : IsReady mapper (page_count size₁ * page_size + size₂) a)
      (alike : page_count size₁ ≡ page_count size₂) (small : size₃ ≤ size₂) where
    first-IsReady : IsReady mapper size₁ a
    first-IsReady = record {
      aligned = ready.aligned;
      upper = ready.upper;
      fits = omega (arith, ready.fits);
      room = ready.room;
      free = λ p low high. ready.free p low (omega arith);
      enough = omega (arith, ready.enough);
    }

    abbrev pages₁ : List ℕ
    pages₁ = pages_from a.start_addr (page_count size₁)

    abbrev frame₁ : ℕ
    frame₁ = first_frame mapper addresses frames ranges physical₁ low₁

    abbrev frame₂ : ℕ
    frame₂ = first_frame mapper addresses frames ranges physical₂ low₂

    abbrev after : Machine → KernelAcpi Machine
    after m = moved mapper addresses frames ranges physical₁ low₁ size₁ a first-IsReady m

    second-IsReady :
        (m : Machine) → Aliased mapper frame₁ pages₁ a.machine m → IsReady mapper size₂ (after m)
    second-IsReady m aliased = record {
      aligned = omega (arith, ready.aligned);
      upper = omega (arith, ready.upper);
      fits = omega (arith, ready.fits);
      room = ready.room;
      free = λ p low high.
          aliased.free p
            (region_page-out mapper addresses frames ranges physical₁ low₁ size₁ a first-IsReady p
              (inr low))
            (ready.free p (omega arith) (omega arith));
      enough =
          omega (
            arith,
            ready.enough,
            aliased.counted,
            length-pages_from a.start_addr (page_count size₁),
          );
    }

    -- The pages of the first region have their frame after the second one is mapped.
    still_first :
        (m m' : Machine)
        → Aliased mapper frame₁ pages₁ a.machine m
        → Aliased mapper frame₂ (pages_from (after m).start_addr (page_count size₂)) m m'
        → All (λ p. frame_of m' p ≡ some (frame₁, acpi_flags)) pages₁
    still_first m m' first second =
        All-pages_from (λ p. frame_of m' p ≡ some (frame₁, acpi_flags)) a.start_addr
          (page_count size₁)
          (λ k lt.
            second.elsewhere (a.start_addr + k * page_size) (
              above (a.start_addr + k * page_size) (after m).start_addr (page_count size₂)
                (omega arith))
            ∙ All-IsIn (λ p. frame_of m p ≡ some (frame₁, acpi_flags))
                (a.start_addr + k * page_size) pages₁ first.each
                (IsIn-pages_from (a.start_addr + k * page_size) a.start_addr (page_count size₁) k
                  refl lt))

    -- Two regions of as many pages are mapped, and the first one is given back before the second.
    -- Where a region of that length was ready with the pages of the second one behind it, a further
    -- one, no larger than the second, fits the budget but fails: the page that it would start with is
    -- mapped to the second region's frame.
    pub map-out_of_order :
        (r₁ : PhysicalMapping) × (b : KernelAcpi Machine) × (r₂ : PhysicalMapping) × (c : KernelAcpi
          Machine)
        × (d : KernelAcpi Machine) × (map_physical_region addresses frames ranges mapper physical₁
              size₁ a
            ≡ some (r₁, b))
        × (map_physical_region addresses frames ranges mapper physical₂ size₂ b ≡ some (r₂, c))
        × (unmap_physical_region addresses frames ranges mapper r₁ c ≡ some d)
        × (d.start_addr + size₃ < d.end_addr_exclusive)
        × (frame_of d.machine d.start_addr
            ≡ some (frames.containing_address page_size physical₂, acpi_flags))
        × (map_physical_region addresses frames ranges mapper physical₃ size₃ d ≡ none)
    unfolding unmap_physical_region
    map-out_of_order =
        let (m₁, e₁, aliased₁) =
          map_physical_region-Aliased mapper addresses frames ranges physical₁ low₁ size₁ a
            first-IsReady in
        let b : KernelAcpi Machine = after m₁ in
        let ready₂ : IsReady mapper size₂ b = second-IsReady m₁ aliased₁ in
        let (m₂, e₂, aliased₂) =
          map_physical_region-Aliased mapper addresses frames ranges physical₂ low₂ size₂ b
            ready₂ in
        let c : KernelAcpi Machine =
          moved mapper addresses frames ranges physical₂ low₂ size₂ b ready₂ m₂ in
        let count = length-pages_from a.start_addr (page_count size₁) in
        let mapped = still_first m₁ m₂ aliased₁ aliased₂ in
        let (m₃, e₃, cleared) =
          unmap_loop mapper addresses frames ranges (pages_from a.start_addr (page_count size₁))
            frame₁ c mapped (pages_from-IsDistinct a.start_addr (page_count size₁))
            (omega (arith, count)) (omega (arith, ready.fits, ready.room)) in
        let d : KernelAcpi Machine =
          back mapper addresses frames ranges (pages_from a.start_addr (page_count size₁)) m₃ c in
        let at : d.start_addr ≡ b.start_addr = omega (arith, count, alike) in
        let still : frame_of m₃ d.start_addr ≡ some (frame₂, acpi_flags) =
          subst (λ q. frame_of m₃ q ≡ some (frame₂, acpi_flags)) (sym at)
            (cleared.kept b.start_addr (
                region_page-out mapper addresses frames ranges physical₁ low₁ size₁ a first-IsReady
                  b.start_addr (inr (omega arith)))
              ∙ aliased₂.each.0) in
        (
          region mapper addresses frames ranges physical₁ low₁ size₁ a first-IsReady,
          b,
          region mapper addresses frames ranges physical₂ low₂ size₂ b ready₂,
          c,
          d,
          e₁,
          e₂,
          rw
              (
                acpi_pages_lem addresses frames ranges a.start_addr size₁ ready.aligned ready.upper
                    (omega (arith, ready.fits, ready.room)),
                unmap_physical_region,
              )
              e₃,
          omega (arith, ready.fits, at),
          still,
          occupied physical₃ size₃ d (frame₂, acpi_flags) (omega (arith, ready.aligned, at))
              (omega (arith, ready.upper, at)) (omega (arith, ready.fits, ready.room, at)) low₃
              still,
        )
