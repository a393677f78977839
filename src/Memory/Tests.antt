-- ===== src/Memory/Tests.antt =====
-- Runs of the two frame allocators, and their theorems at small memory maps.
use native.Mathlib.Nat.{mul-mod_left, lt-div-mul-add, div-mul-le_self}
use zoom_os.Prelude.{
  ℕ, ◌+◌, ◌*◌, ◌/◌, ◌%◌, ◌≤◌, ◌<◌, ◌≡◌, refl, ◌↔◌, ◌⊎◌, Option, none, some, true, false, List, [],
  ◌∷◌, arith,
}
use zoom_os.Memory.{Range, MemoryRegion, page_size, Frames}
use zoom_os.Memory.Boot
use zoom_os.Memory.Boot.{Boot, next_region, from_region}
use zoom_os.Memory.Boot.Sequence.{
  IsBoot, Yields, pages_left, pages, usable_pages, allocate_frame-Yields,
}
use zoom_os.Memory.Smart
use zoom_os.Memory.Smart.{Itertools, insert, sort_by_start, join, non_empty, coallesce, left_over}
use zoom_os.Memory.Smart.Init.{IsReserved, IsAmong, allocate_frame-init}
use zoom_os.Memory.Smart.Allocate.{Covers, Takes, allocate_frame-Takes}
use zoom_os.Memory.Smart.Coalesce.{IsNormal}
use zoom_os.Memory.Smart.Release.{deallocate_frame_lem}

pub align_down : ℕ → ℕ → ℕ
align_down size addr = addr / size * size

pub align_down-contains :
    (size addr : ℕ)
    → 0 < size
    → (align_down size addr ≤ addr) × (addr < align_down size addr + size)
unfolding align_down
align_down-contains size addr pos = (div-mul-le_self addr size, lt-div-mul-add pos)

pub align_down-multiple : (size addr : ℕ) → align_down size addr % size ≡ 0
unfolding align_down
align_down-multiple size addr = mul-mod_left (addr / size) size

abbrev pub frames : Frames
frames = record {
  containing_address = align_down;
  contains = align_down-contains;
  multiple = align_down-multiple;
}

-- Usable pages at 0x1000 and 0x2000, then memory of the boot loader, then one more usable page.
abbrev memory_map : List MemoryRegion
memory_map =
    record { start = 0x1000; end = 0x3800; usable = true }
    ∷ record { start = 0x4000; end = 0x6000; usable = false }
    ∷ record { start = 0x8000; end = 0x9000; usable = true }
    ∷ []

boot_runs : pages_left (Boot.init memory_map) ≡ 0x1000 ∷ 0x2000 ∷ 0x8000 ∷ []
unfolding Boot.init pages usable_pages align_down
boot_runs = refl

abbrev second : Boot
second = record {
  memory_map_iter =
      record { start = 0x4000; end = 0x6000; usable = false }
      ∷ record { start = 0x8000; end = 0x9000; usable = true }
      ∷ [];
  current_region = some (record { start = 0x2000; end = 0x3800 });
}

boot_step : Boot.allocate_frame frames (Boot.init memory_map) ≡ (some 0x1000, second)
unfolding Boot.init Boot.allocate_frame next_region from_region align_down
boot_step = refl

fresh-IsBoot : IsBoot (Boot.init memory_map)
unfolding Boot.init
fresh-IsBoot = (omega arith, λ r e. cc)

allocate_frame-Yields_example :
    Yields (pages_left (Boot.init memory_map)) (Boot.allocate_frame frames (Boot.init memory_map))
allocate_frame-Yields_example = allocate_frame-Yields frames (Boot.init memory_map) fresh-IsBoot

-- The memory of the boot loader is on the list, and the usable page at 0x8000 is not.
init_takes_reserved :
    Smart.init second
    ≡ record { start = 0x4000; end = 0x6000 } ∷ record { start = 0x2000; end = 0x3800 } ∷ []
unfolding Smart.init left_over
init_takes_reserved = refl

abbrev taken_ranges : List Range
taken_ranges =
    record { start = 0x4000; end = 0x6000 } ∷ record { start = 0x2000; end = 0x3800 } ∷ []

allocate_frame-init_example :
    ((Smart.allocate_frame frames page_size (Smart.init second)).0
      ≡ some (frames.containing_address page_size 0x4000))
    × ((range : Range)
        → IsAmong range (Smart.init second)
          ↔ ((second.current_region ≡ some range) ⊎ IsReserved second.memory_map_iter range))
allocate_frame-init_example =
    allocate_frame-init frames page_size second []
      (record { start = 0x8000; end = 0x9000; usable = true } ∷ [])
      (record { start = 0x4000; end = 0x6000; usable = false }) refl tt refl (omega arith)
      (omega arith) (omega arith)

abbrev two_ranges : List Range
two_ranges = record { start = 0x1000; end = 0x2000 } ∷ record { start = 0x3000; end = 0x6000 } ∷ []

allocate_frame-Takes_example :
    Takes frames page_size two_ranges (Smart.allocate_frame frames page_size two_ranges)
allocate_frame-Takes_example =
    allocate_frame-Takes frames page_size (omega arith) two_ranges (omega arith) (omega arith)

joined : (Range → Range → Option Range) → Range → List Range → List Range
joined f x [] = x ∷ []
joined f x (y ∷ ranges) = elim (f x y) [ some z ↦ joined f z ranges | none ↦ x ∷ joined f y ranges ]

join_all : (Range → Range → Option Range) → List Range → List Range
join_all f [] = []
join_all f (x ∷ ranges) = joined f x ranges

join_all-join :
    (f : Range → Range → Option Range) (x y z : Range) (ranges : List Range)
    → f x y ≡ some z
    → join_all f (x ∷ y ∷ ranges) ≡ join_all f (z ∷ ranges)
unfolding join_all joined
join_all-join f x y z ranges e = rw (e, joined)

join_all-keep :
    (f : Range → Range → Option Range) (x y : Range) (ranges : List Range)
    → f x y ≡ none
    → join_all f (x ∷ y ∷ ranges) ≡ x ∷ join_all f (y ∷ ranges)
unfolding join_all joined
join_all-keep f x y ranges e = rw (e, joined)

join_all-nil : (f : Range → Range → Option Range) → join_all f [] ≡ []
unfolding join_all
join_all-nil f = refl

join_all-one : (f : Range → Range → Option Range) (x : Range) → join_all f (x ∷ []) ≡ x ∷ []
unfolding join_all joined
join_all-one f x = refl

abbrev itertools : Itertools
itertools = record {
  coalesce = join_all;
  coalesce-nil = join_all-nil;
  coalesce-one = join_all-one;
  coalesce-join = join_all-join;
  coalesce-keep = join_all-keep;
}

-- A page between two ranges joins them.
release_runs :
    Smart.deallocate_frame itertools page_size 0x2000 two_ranges
    ≡ record { start = 0x1000; end = 0x6000 } ∷ []
unfolding Smart.deallocate_frame coallesce sort_by_start insert join non_empty join_all joined
release_runs = refl

deallocate_frame_lem_example :
    IsNormal (Smart.deallocate_frame itertools page_size 0x6000 taken_ranges)
    × ((a : ℕ)
        → Covers (Smart.deallocate_frame itertools page_size 0x6000 taken_ranges) a
          ↔ (((0x6000 ≤ a) × (a < 0x7000)) ⊎ Covers taken_ranges a))
deallocate_frame_lem_example =
    deallocate_frame_lem itertools page_size 0x6000 taken_ranges (omega arith) (omega arith)
      (omega arith) (omega arith)
