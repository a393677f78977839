-- ===== src/Memory/Boot.antt =====
-- `BootInfoFrameAllocator` of kernel/src/memory.rs.
pub mod Sequence
pub mod Usable
use zoom_os.Prelude.{ℕ, Option, none, some, Bool, List, [], ◌∷◌, leb, if◌then◌else◌}
use zoom_os.Word.{wrapping_add}
use zoom_os.Memory.{Range, MemoryRegion, range_of, page_size, Frames}

pub record Boot : Type 0 where
  pub memory_map_iter : List MemoryRegion
  pub current_region : Option Range

unfoldable pub init : List MemoryRegion → Boot
init memory_map = record { memory_map_iter = memory_map; current_region = none }

module _ (frames : Frames) where
  open frames use {containing_address}

  -- A frame from the front of a region, or what is done where the region has no room for one.
  unfoldable pub from_region : Range → List MemoryRegion → Option ℕ × Boot → Option ℕ × Boot
  from_region range rest otherwise =
      let new_start = wrapping_add range.start page_size in
      if leb new_start range.end
      then (
        some (containing_address page_size range.start),
        record {
          memory_map_iter = rest;
          current_region = some (record range { start = new_start });
        },
      )
      else otherwise

  -- The loop where there is no current region: `'get_region` skips what is not usable.
  unfoldable pub next_region : List MemoryRegion → Option ℕ × Boot
  next_region [] = (none, record { memory_map_iter = []; current_region = none })
  next_region (r ∷ rest) =
      let later = next_region rest in
      if r.usable then from_region (range_of r) rest later else later

  unfoldable pub allocate_frame : Boot → Option ℕ × Boot
  allocate_frame b = elim b.current_region [
    | some range ↦ from_region range b.memory_map_iter (next_region b.memory_map_iter)
    | none ↦ next_region b.memory_map_iter
  ]
