-- ===== src/Paging/Acpi.antt =====
-- kernel/src/acpi.rs: the handler that maps physical regions for the table parser, a package.
pub mod Map
pub mod Unmap
pub mod Order
use zoom_os.Prelude.{
  ℕ, ◌+◌, ◌-◌, Option, none, some, List, [], ◌∷◌, leb, ◌==◌, if◌then◌else◌, ◌>>=◌,
}
use zoom_os.Word.{wrapping_add, wrapping_sub}
use zoom_os.Memory.{Frames, page_size}
use zoom_os.Paging.{
  Addresses, PageRanges, Mapper, Flag, present, writable, no_cache, write_through, for_each,
}

-- `acpi::PhysicalMapping` without the handler, which shares its `start_addr` with every clone.
pub record PhysicalMapping : Type 0 where
  pub physical_start : ℕ
  pub virtual_start : ℕ
  pub region_length : ℕ
  pub mapped_length : ℕ

-- `PRESENT | WRITABLE | NO_CACHE | WRITE_THROUGH`
abbrev pub acpi_flags : List Flag
acpi_flags = present ∷ writable ∷ no_cache ∷ write_through ∷ []

-- `OnceCell::set`, whose `Err` is ignored.
abbrev pub set_once : ℕ → Option ℕ → Option ℕ
set_once page none = some page
set_once page (some earlier) = some earlier

-- A `KernelAcpi` and the page tables that it works on.
pub record KernelAcpi (M : Type 0) : Type 0 where
  pub start_addr : ℕ
  pub end_addr_exclusive : ℕ
  pub machine : M

-- `KernelAcpi::new`, with `KERNEL_ACPI_ADDR` and `KERNEL_ACPI_LEN`
unfoldable pub new : {M : Type 0} → ℕ → ℕ → M → KernelAcpi M
new acpi_addr acpi_len m = record {
  start_addr = acpi_addr;
  end_addr_exclusive = wrapping_sub (wrapping_add acpi_addr acpi_len) 1;
  machine = m;
}

module _ (addresses : Addresses) (frames : Frames) (ranges : PageRanges) where
  -- From the page of the first address to that of the address behind the last one.
  unfoldable pub acpi_pages : ℕ → ℕ → Option (List ℕ)
  acpi_pages addr size = do
    start ← addresses.new addr
    end ← addresses.new (wrapping_add addr size)
    some (
        ranges.range (frames.containing_address page_size start)
          (frames.containing_address page_size end))

  module _ (mapper : Mapper) where
    -- The body of the loop of `map_physical_region`; `none` is a failed `unwrap`.
    unfoldable pub map_acpi_page :
        ℕ → ℕ → Option ℕ × KernelAcpi mapper.Machine → Option (Option ℕ × KernelAcpi mapper.Machine)
    map_acpi_page physical_address page (virtual_start, a) = do
      pointer ← if page == 0 then none else some page
      addr ← addresses.physical physical_address
      m ← mapper.map_to page (frames.containing_address page_size addr) acpi_flags a.machine
      some (
        set_once pointer virtual_start,
        record a { machine = m; start_addr = wrapping_add a.start_addr page_size },
      )

    unfoldable pub map_physical_region :
        ℕ → ℕ → KernelAcpi mapper.Machine → Option (PhysicalMapping × KernelAcpi mapper.Machine)
    map_physical_region physical_address size a =
        if leb a.end_addr_exclusive (wrapping_add a.start_addr size) then none else do
          page_range ← acpi_pages a.start_addr size
          (virtual_start, a) ← for_each (map_acpi_page physical_address) page_range (none, a)
          pointer ← virtual_start
          some (
            record {
              physical_start = physical_address;
              virtual_start = pointer;
              region_length = size;
              mapped_length = size;
            },
            a,
          )

    unfoldable pub unmap_acpi_page :
        ℕ → KernelAcpi mapper.Machine → Option (KernelAcpi mapper.Machine)
    unmap_acpi_page page a = do
      (frame, m) ← mapper.unmap page a.machine
      some (record a { machine = m; start_addr = wrapping_sub a.start_addr page_size })

    unfoldable pub unmap_physical_region :
        PhysicalMapping → KernelAcpi mapper.Machine → Option (KernelAcpi mapper.Machine)
    unmap_physical_region region a = do
      page_range ← acpi_pages region.virtual_start region.region_length
      for_each unmap_acpi_page page_range a
