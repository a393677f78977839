-- ===== src/Allocator/LinkedList.antt =====
-- kernel/src/allocator/linked_list.rs: a first-fit heap over a list of free regions.
pub mod Heap
pub mod Fit
pub mod Carve
pub mod Alloc
pub mod Trace
mod Tests
use zoom_os.Prelude.{
  ℕ, ◌+◌, ◌-◌, ◌^◌, max, ◌&&◌, Option, none, some, List, [], ◌∷◌, ltb, leb, ◌==◌, if◌then◌else◌,
  ◌>>=◌,
}
use zoom_os.Word.{wrapping_add, checked_add}
use zoom_os.Allocator.{Layout, align_up}

-- A `ListNode`: it stands at the start of the free memory that it describes. The list that hangs
-- off `head` is a list of these, in the order of the `next` pointers.
pub record Region : Type 0 where
  pub start : ℕ
  pub size : ℕ

-- `mem::size_of::<ListNode>()` and `mem::align_of::<ListNode>()`
abbrev pub node_size : ℕ
node_size = 16

abbrev pub node_align : ℕ
node_align = 8

abbrev pub end_addr : Region → ℕ
end_addr r = wrapping_add r.start r.size

-- `none` is a failed assertion.
unfoldable pub add_free_region : ℕ → ℕ → List Region → Option (List Region)
add_free_region addr size free =
    if align_up addr node_align == addr && leb node_size size
    then some (record { start = addr; size = size } ∷ free)
    else none

-- The checks after `alloc_end` is known.
abbrev fit : Region → ℕ → ℕ → Option ℕ
fit r alloc_start alloc_end =
    let excess_size = end_addr r - alloc_end in
    if ltb (end_addr r) alloc_end
    then none
    else if ltb 0 excess_size && ltb excess_size node_size
    then none
    else some alloc_start

unfoldable pub alloc_from_region : Region → ℕ → ℕ → Option ℕ
alloc_from_region r size align =
    let alloc_start = align_up r.start align in checked_add alloc_start size >>= fit r alloc_start

pub record Found : Type 0 where
  pub region : Region
  pub alloc_start : ℕ
  pub rest : List Region

abbrev pub behind : Region → Option Found → Option Found
behind r none = none
behind r (some f) = some (record f { rest = r ∷ f.rest })

-- The region is unlinked, and those before it stay.
unfoldable pub find_region : ℕ → ℕ → List Region → Option Found
find_region size align [] = none
find_region size align (r ∷ free) = elim (alloc_from_region r size align) [
  | some alloc_start ↦ some (record { region = r; alloc_start = alloc_start; rest = free })
  | none ↦ behind r (find_region size align free)
]

-- The size that a request takes: padded to its alignment, with room for a node.
unfoldable pub padded_align : Layout → ℕ
padded_align layout = max layout.align node_align

unfoldable pub padded_size : Layout → ℕ
padded_size layout = max (align_up layout.size (padded_align layout)) node_size

-- `Layout::align_to` fails where the padded size would pass `isize::MAX`.
unfoldable pub size_align : Layout → Option (ℕ × ℕ)
size_align layout =
    if leb (layout.size + padded_align layout) (2 ^ 63)
    then some (padded_size layout, padded_align layout)
    else none

-- What `alloc` does with the region found; address 0 is the null pointer.
unfoldable pub carve : ℕ → List Region → Option Found → Option (ℕ × List Region)
carve size free none = some (0, free)
carve size free (some f) = do
  alloc_end ← checked_add f.alloc_start size
  let excess_size = end_addr f.region - alloc_end
  rest ← if ltb 0 excess_size then add_free_region alloc_end excess_size f.rest else some f.rest
  some (f.alloc_start, rest)

-- `none` is a panic.
unfoldable pub alloc : Layout → List Region → Option (ℕ × List Region)
alloc layout free = do
  (size, align) ← size_align layout
  carve size free (find_region size align free)

unfoldable pub dealloc : ℕ → Layout → List Region → Option (List Region)
dealloc ptr layout free = do (size, align) ← size_align layout; add_free_region ptr size free

-- The heap after `init`, on an empty list.
unfoldable pub init : ℕ → ℕ → Option (List Region)
init heap_start heap_size = add_free_region heap_start heap_size []
