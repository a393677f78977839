-- ===== src/Memory/Smart.antt =====
-- `SmartFrameAllocator` of kernel/src/memory.rs.
pub mod Init
pub mod Allocate
pub mod Coalesce
pub mod Release
use zoom_os.Prelude.{
  ℕ, ◌+◌, Option, none, some, Bool, true, false, not, List, [], ◌∷◌, ◌++◌, ◌≡◌, leb, ◌==◌,
  if◌then◌else◌,
}
use zoom_os.Word.{wrapping_add}
use zoom_os.Memory.{Range, MemoryRegion, range_of, Frames}
use zoom_os.Memory.Boot.{Boot}

-- The only field, `memory_ranges`.
abbrev pub Smart : Type 0
Smart = List Range

-- The loop of `init` over the regions that `BootInfoFrameAllocator` has not reached.
unfoldable pub left_over : List MemoryRegion → List Range
left_over [] = []
left_over (r ∷ regions) =
    let later = left_over regions in if not r.usable then range_of r ∷ later else later

-- `init` after the heap is set up from `b`.
unfoldable pub init : Boot → Smart
init b = elim b.current_region [
  | some range ↦ left_over b.memory_map_iter ++ range ∷ []
  | none ↦ left_over b.memory_map_iter
]

-- `sort_by_key(|r| r.start)`, which is stable.
unfoldable pub insert : Range → List Range → List Range
insert x [] = x ∷ []
insert x (y ∷ ranges) = if leb x.start y.start then x ∷ y ∷ ranges else y ∷ insert x ranges

unfoldable pub sort_by_start : List Range → List Range
sort_by_start [] = []
sort_by_start (x ∷ ranges) = insert x (sort_by_start ranges)

-- The closure of `coallesce`: `none` is `Err`, with both ranges as they were.
unfoldable pub join : Range → Range → Option Range
join x y =
    if x.end == y.start
    then some (record { start = x.start; end = y.end })
    else if y.end == x.start
    then some (record { start = y.start; end = x.end })
    else none

-- `filter(|r| r.start != r.end)`
unfoldable pub non_empty : List Range → List Range
non_empty [] = []
non_empty (r ∷ ranges) =
    let later = non_empty ranges in if not (r.start == r.end) then r ∷ later else later

-- `Itertools::coalesce` of the itertools package, for a closure whose `Err` gives back its arguments:
-- neighbours are joined from the left as long as the closure joins them.
pub record Itertools : Type 0 where
  pub coalesce : (Range → Range → Option Range) → List Range → List Range
  pub coalesce-nil : (f : Range → Range → Option Range) → coalesce f [] ≡ []
  pub coalesce-one : (f : Range → Range → Option Range) (x : Range) → coalesce f (x ∷ []) ≡ x ∷ []
  pub coalesce-join :
      (f : Range → Range → Option Range) (x y z : Range) (ranges : List Range)
      → f x y ≡ some z
      → coalesce f (x ∷ y ∷ ranges) ≡ coalesce f (z ∷ ranges)
  pub coalesce-keep :
      (f : Range → Range → Option Range) (x y : Range) (ranges : List Range)
      → f x y ≡ none
      → coalesce f (x ∷ y ∷ ranges) ≡ x ∷ coalesce f (y ∷ ranges)

module _ (itertools : Itertools) where
  unfoldable pub coallesce : Smart → Smart
  coallesce ranges = non_empty (itertools.coalesce join (sort_by_start ranges))

  -- `frame` is the start address, `size` is `S::SIZE`.
  unfoldable pub deallocate_frame : ℕ → ℕ → Smart → Smart
  deallocate_frame size frame ranges =
      coallesce (ranges ++ record { start = frame; end = wrapping_add frame size } ∷ [])

abbrev pub behind : Range → Option ℕ × Smart → Option ℕ × Smart
behind r (frame, ranges) = (frame, r ∷ ranges)

module _ (frames : Frames) where
  open frames use {containing_address}

  unfoldable pub allocate_frame : ℕ → Smart → Option ℕ × Smart
  allocate_frame size [] = (none, [])
  allocate_frame size (r ∷ ranges) =
      let new_start = wrapping_add r.start size in
      let later = allocate_frame size ranges in
      if leb new_start r.end
      then (some (containing_address size r.start), record r { start = new_start } ∷ ranges)
      else behind r later
