-- ===== src/Paging/Acpi/Map.antt =====
-- What `map_physical_region` of kernel/src/acpi.rs does to the page tables.
use zoom_os.Prelude.{
  ℕ, suc, ◌+◌, ◌-◌, ◌*◌, ◌/◌, ◌%◌, ◌^◌, ◌≤◌, ◌<◌, ◌≡◌, false, refl, sym, ◌∙◌, ap, inl, inr, ◌⊎◌,
  List, [], ◌∷◌, Option, none, some, arith, All, All-IsIn, IsIn, length, leb, ◌==◌,
}
use zoom_os.Word.{usize_mod, wrapping_add}
use zoom_os.Memory.{Frames, page_size}
use zoom_os.Paging.{Addresses, PageRanges, Mapper, Mapped, for_each}
use zoom_os.Paging.Pages.{
  pages_from, range-pages_from, All-pages_from, IsIn-pages_from, IsDistinct, pages_from-IsDistinct,
  length-pages_from, above, below,
}
use zoom_os.Paging.Acpi.{
  PhysicalMapping, KernelAcpi, acpi_flags, set_once, acpi_pages, map_acpi_page, map_physical_region,
}

-- The pages of a region of `size` bytes from the start of a page.
abbrev pub page_count : ℕ → ℕ
page_count size = suc (size / page_size)

-- The pages of a region that starts with a page.
module _ (addresses : Addresses) (frames : Frames) (ranges : PageRanges) (start size : ℕ)
    (aligned : start % page_size ≡ 0) (upper : usize_mod - 2 ^ 47 ≤ start)
    (room : start + size < usize_mod) where
  pub acpi_pages_lem :
      acpi_pages addresses frames ranges start size ≡ some (pages_from start (page_count size))
  unfolding acpi_pages
  acpi_pages_lem =
      rw
        (
          no_wrap,
          addresses.new-upper start upper (omega (arith, room)),
          addresses.new-upper (start + size) (omega (arith, upper)) (omega (arith, room)),
        )
        (ap some (
          rw (first, end_page)
            (range-pages_from ranges start (start + size / page_size * page_size) (page_count size)
              (omega arith) (omega arith))))
    where
      no_wrap : wrapping_add start size ≡ start + size
      no_wrap = omega (arith, room)

      first : frames.containing_address page_size start ≡ start
      first = omega (
        arith,
        aligned,
        frames.contains page_size start (omega arith),
        frames.multiple page_size start,
      )

      end_page :
          frames.containing_address page_size (start + size) ≡ start + size / page_size * page_size
      end_page = omega (
        arith,
        aligned,
        frames.contains page_size (start + size) (omega arith),
        frames.multiple page_size (start + size),
      )

module _ (mapper : Mapper) where
  open mapper use {Machine, frame_of, IsTaken, IsFree, left}

  -- All the pages have one frame, and the other pages are as they were.
  pub record Aliased (frame : ℕ) (pages : List ℕ) (m m' : Machine) : Type 0 where
    pub each : All (λ p. frame_of m' p ≡ some (frame, acpi_flags)) pages
    pub elsewhere : (q : ℕ) → ¬ IsIn q pages → frame_of m' q ≡ frame_of m q
    pub free : (q : ℕ) → ¬ IsIn q pages → IsFree m q → IsFree m' q
    pub counted : left m ≤ left m' + 3 * length pages

  more :
      (page frame : ℕ) (pages : List ℕ) (m m₁ m' : Machine)
      → Mapped left IsTaken IsFree frame_of page frame acpi_flags m m₁
      → Aliased frame pages m₁ m'
      → ¬ IsIn page pages
      → Aliased frame (page ∷ pages) m m'
  more page frame pages m m₁ m' mapped rest fresh = record {
    each = (rest.elsewhere page fresh ∙ mapped.here, rest.each);
    elsewhere =
        λ q out. rest.elsewhere q (λ i. out (inr i)) ∙ mapped.elsewhere q (λ e. out (inl e));
    free = λ q out h. rest.free q (λ i. out (inr i)) (mapped.free q (λ e. out (inl e)) h);
    counted = omega (arith, rest.counted, mapped.counted);
  }

  still_free :
      (page frame : ℕ) (pages : List ℕ) (m m₁ : Machine)
      → Mapped left IsTaken IsFree frame_of page frame acpi_flags m m₁
      → ¬ IsIn page pages
      → All (IsFree m) pages
      → All (IsFree m₁) pages
  still_free page frame [] m m₁ mapped fresh h = tt
  still_free page frame (q ∷ pages) m m₁ mapped fresh h = (
    mapped.free q (λ e. fresh (inl (sym e))) h.0,
    still_free page frame pages m m₁ mapped (λ i. fresh (inr i)) h.1,
  )

  -- What a region needs that starts at `start_addr`.
  pub record IsReady (size : ℕ) (a : KernelAcpi Machine) : Type 0 where
    pub aligned : a.start_addr % page_size ≡ 0
    pub upper : usize_mod - 2 ^ 47 ≤ a.start_addr
    pub fits : a.start_addr + size < a.end_addr_exclusive
    pub room : a.end_addr_exclusive + page_size < usize_mod
    pub free :
        (p : ℕ)
        → a.start_addr ≤ p
        → p < a.start_addr + page_count size * page_size
        → IsFree a.machine p
    pub enough : 3 * page_count size ≤ left a.machine

  module _ (addresses : Addresses) (frames : Frames) (ranges : PageRanges) (physical : ℕ)
      (low : physical < 2 ^ 52) where
    abbrev pub first_frame : ℕ
    first_frame = frames.containing_address page_size physical

    map_step :
        (page : ℕ) (v : Option ℕ) (a : KernelAcpi Machine)
        → 0 < page
        → IsFree a.machine page
        → 3 ≤ left a.machine
        → (m : Machine) × (map_acpi_page addresses frames ranges mapper physical page (v, a)
            ≡ some (
              set_once page v,
              record a { machine = m; start_addr = wrapping_add a.start_addr page_size },
            ))
          × Mapped left IsTaken IsFree frame_of page first_frame acpi_flags a.machine m
    unfolding map_acpi_page
    map_step page v a pos free enough =
        let (m, e, mapped) =
          mapper.map_to-Mapped page first_frame acpi_flags a.machine free enough in
        let real : (page == 0) ≡ false = ground arith in
        (m, rw (real, map_acpi_page, addresses.physical-some physical low, e) refl, mapped)

    -- `virtual_start` after the loop.
    abbrev first_of : Option ℕ → List ℕ → Option ℕ
    first_of v [] = v
    first_of v (page ∷ pages) = set_once page v

    first-set_once :
        (page : ℕ) (v : Option ℕ) (pages : List ℕ)
        → first_of (set_once page v) pages ≡ set_once page v
    first-set_once page none [] = refl
    first-set_once page (some w) [] = refl
    first-set_once page none (q ∷ pages) = refl
    first-set_once page (some w) (q ∷ pages) = refl

    abbrev advanced : (pages : List ℕ) (m : Machine) → KernelAcpi Machine → KernelAcpi Machine
    advanced pages m a = record a {
      machine = m;
      start_addr = a.start_addr + length pages * page_size;
    }

    map_loop :
        (pages : List ℕ) (v : Option ℕ) (a : KernelAcpi Machine)
        → All (λ p. 0 < p) pages
        → All (IsFree a.machine) pages
        → IsDistinct pages
        → 3 * length pages ≤ left a.machine
        → a.start_addr + length pages * page_size < usize_mod
        → (m : Machine) × (for_each
              (map_acpi_page addresses frames ranges mapper physical)
              pages
              (v, a)
            ≡ some (first_of v pages, advanced pages m a))
          × Aliased first_frame pages a.machine m
    unfolding for_each
    map_loop [] v a pos free distinct enough room = (
      a.machine,
      (let e : a.start_addr + 0 ≡ a.start_addr = omega arith in
          ap (λ s. some (v, record a { start_addr = s })) (sym e)),
      record { each = tt; elsewhere = λ q out. refl; free = λ q out h. h; counted = omega arith },
    )
    map_loop (page ∷ pages) v a pos free distinct enough room =
        let (m, e, mapped) = map_step page v a pos.0 free.0 (omega arith) in
        let (m', e', rest) =
          map_loop pages (set_once page v)
            (record a { machine = m; start_addr = wrapping_add a.start_addr page_size }) pos.1
            (still_free page first_frame pages a.machine m mapped distinct.0 free.1) distinct.1
            (omega (arith, mapped.counted)) (omega arith) in
        let sum : wrapping_add a.start_addr page_size + length pages * page_size
            ≡ a.start_addr + suc (length pages) * page_size =
          omega arith in
        (
          m',
          rw (e, for_each)
              (e'
                ∙ ap some (λ i.
                  (first-set_once page v pages i, record a { machine = m'; start_addr = sum i }))),
          more page first_frame pages a.machine m m' mapped rest distinct.0,
        )

    module _ (size : ℕ) (a : KernelAcpi Machine) (ready : IsReady size a) where
      abbrev pub moved : Machine → KernelAcpi Machine
      moved m = record a { machine = m; start_addr = a.start_addr + page_count size * page_size }

      abbrev pub region : PhysicalMapping
      region = record {
        physical_start = physical;
        virtual_start = a.start_addr;
        region_length = size;
        mapped_length = size;
      }

      pub map_physical_region-Aliased :
          (m : Machine) × (map_physical_region addresses frames ranges mapper physical size a
            ≡ some (region, moved m))
          × Aliased first_frame (pages_from a.start_addr (page_count size)) a.machine m
      unfolding map_physical_region
      map_physical_region-Aliased =
          let pages = pages_from a.start_addr (page_count size) in
          let (m, e, aliased) =
            map_loop pages none a
              (All-pages_from (λ p. 0 < p) a.start_addr (page_count size)
                (λ k lt. omega (arith, ready.upper)))
              (All-pages_from (IsFree a.machine) a.start_addr (page_count size)
                (λ k lt. ready.free _ (omega arith) (omega arith)))
              (pages_from-IsDistinct a.start_addr (page_count size))
              (omega (arith, ready.enough, length-pages_from a.start_addr (page_count size)))
              (omega (
                arith,
                ready.fits,
                ready.room,
                length-pages_from a.start_addr (page_count size),
              )) in
          let fits : leb a.end_addr_exclusive (wrapping_add a.start_addr size) ≡ false =
            ground (arith, ready.fits, ready.room) in
          let sum : a.start_addr + length pages * page_size
              ≡ a.start_addr + page_count size * page_size =
            omega (arith, length-pages_from a.start_addr (page_count size)) in
          (
            m,
            rw
                (
                  fits,
                  map_physical_region,
                  acpi_pages_lem addresses frames ranges a.start_addr size ready.aligned ready.upper
                      (omega (arith, ready.fits, ready.room)),
                  e,
                )
                (ap (λ s. some (region, record a { machine = m; start_addr = s })) sum),
            aliased,
          )

      region_page-IsIn :
          (p : ℕ)
          → p % page_size ≡ 0
          → a.start_addr ≤ p
          → p ≤ a.start_addr + size
          → IsIn p (pages_from a.start_addr (page_count size))
      region_page-IsIn p aligned low_end high =
          IsIn-pages_from p a.start_addr (page_count size) ((p - a.start_addr) / page_size)
            (omega (arith, ready.aligned)) (omega arith)

      pub region_page-out :
          (q : ℕ)
          → (q < a.start_addr) ⊎ (a.start_addr + page_count size * page_size ≤ q)
          → ¬ IsIn q (pages_from a.start_addr (page_count size))
      region_page-out q (inl lt) i = above q a.start_addr (page_count size) lt i
      region_page-out q (inr le) i = below q a.start_addr (page_count size) le i

      -- Where the next pages are free and the budget holds, the region is mapped with its start at
      -- `start_addr`, which moves behind it. Every page of it has the same frame, that of the physical
      -- address, and the pages outside are as they were.
      pub map_physical_region_lem :
          (m : Machine) × (map_physical_region addresses frames ranges mapper physical size a
            ≡ some (region, moved m))
          × ((p : ℕ)
              → p % page_size ≡ 0
              → a.start_addr ≤ p
              → p ≤ a.start_addr + size
              → frame_of m p ≡ some (frames.containing_address page_size physical, acpi_flags))
          × ((q : ℕ)
              → (q < a.start_addr) ⊎ (a.start_addr + page_count size * page_size ≤ q)
              → frame_of m q ≡ frame_of a.machine q)
      map_physical_region_lem =
          let (m, e, aliased) = map_physical_region-Aliased in
          (
            m,
            e,
            λ p aligned low_end high.
                All-IsIn (λ p. frame_of m p ≡ some (first_frame, acpi_flags)) p
                  (pages_from a.start_addr (page_count size)) aliased.each
                  (region_page-IsIn p aligned low_end high),
            λ q out. aliased.elsewhere q (region_page-out q out),
          )
