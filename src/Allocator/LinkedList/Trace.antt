-- ===== src/Allocator/LinkedList/Trace.antt =====
-- Any sequence of `alloc` and `dealloc` calls of kernel/src/allocator/linked_list.rs: what the
-- clients of the heap hold.
pub mod Safe
use zoom_os.Prelude.{
  ℕ, zero, suc, ◌+◌, ◌%◌, ◌≤◌, ◌≡◌, refl, ap, subst, inl, inr, List, [], ◌∷◌, Option, none, some,
  arith, max, All, All-imp, All-get_elem?, some-injective, get_elem?, Option-cases, ◌>>=◌,
  if◌then◌else◌, ◌==◌,
}
use zoom_os.Word.{usize_mod}
use zoom_os.Allocator.{Layout}
use zoom_os.Allocator.Align.{mod-eight}
use zoom_os.Allocator.LinkedList.{
  Region, padded_align, padded_size, alloc, dealloc, add_free_region,
}
use zoom_os.Allocator.LinkedList.Heap.{
  Apart, Apart-sym, Apart-part, IsHeap, IsRegion, Unlinked, first, later, Unlinked-All,
  Unlinked-IsHeap,
}
use zoom_os.Allocator.LinkedList.Fit.{IsLayout, padded_align-pow, padded_size_lem, size_align_lem}
use zoom_os.Allocator.LinkedList.Carve.{Granted, add_free_region_lem}
use zoom_os.Allocator.LinkedList.Alloc.{Outcome, alloc-Outcome}

-- A block that a client holds: the pointer it got, and the layout it asked for.
pub record Held : Type 0 where
  pub ptr : ℕ
  pub layout : Layout

-- The list of free regions, and the blocks that clients hold.
pub record ClientHeap : Type 0 where
  pub free : List Region
  pub live : List Held

-- One call; `frees n` gives the n-th live block back.
pub data Call : Type 0 where
  allocates : Layout → Call
  frees : ℕ → Call

-- The list without its n-th element.
abbrev pub remove : List Held → ℕ → List Held
remove [] n = []
remove (b ∷ live) zero = live
remove (b ∷ live) (suc n) = b ∷ remove live n

-- A null pointer is not held.
abbrev pub keep : Layout → List Held → ℕ × List Region → ClientHeap
keep layout live (p, free) = record {
  free = free;
  live = if p == 0 then live else record { ptr = p; layout = layout } ∷ live;
}

-- `none` is a panic. A client frees only what it holds.
unfoldable pub take_call : Call → ClientHeap → Option ClientHeap
take_call (allocates layout) heap = do r ← alloc layout heap.free; some (keep layout heap.live r)
take_call (frees n) heap = elim (get_elem? heap.live n) [
  | none ↦ some heap
  | some b ↦ do
    free ← dealloc b.ptr b.layout heap.free
    some (record { free = free; live = remove heap.live n })
]

unfoldable pub run_calls : List Call → ClientHeap → Option ClientHeap
run_calls [] heap = some heap
run_calls (c ∷ calls) heap = do heap ← take_call c heap; run_calls calls heap

-- What a block takes of the memory.
abbrev pub block_of : Held → Region
block_of b = record { start = b.ptr; size = padded_size b.layout }

abbrev pub blocks : List Held → List Region
blocks [] = []
blocks (b ∷ live) = block_of b ∷ blocks live

-- A layout that a client may ask for in a heap that ends at `hi`.
pub record IsRequest (hi : ℕ) (layout : Layout) : Type 0 where
  pub power : ℕ
  pub valid : IsLayout layout power
  pub room : hi + padded_align layout ≤ usize_mod

-- A block that was handed out, aligned for its layout.
pub record IsHeld (hi : ℕ) (b : Held) : Type 0 where
  pub request : IsRequest hi b.layout
  pub aligned : b.ptr % padded_align b.layout ≡ 0

-- Free regions and live blocks are all regions of the heap, and no two of them overlap.
pub record IsSafe (lo hi : ℕ) (heap : ClientHeap) : Type 0 where
  pub free : IsHeap lo hi heap.free
  pub live : IsHeap lo hi (blocks heap.live)
  pub held : All (IsHeld hi) heap.live
  pub apart : All (λ r. All (Apart r) heap.free) (blocks heap.live)

abbrev pub Asks : ℕ → Call → Type 0
Asks hi (allocates layout) = IsRequest hi layout
Asks hi (frees n) = Unit {0}

-- What a call gives from a safe heap: no panic, and a safe heap.
abbrev pub Stays : (lo hi : ℕ) → Option ClientHeap → Type 0
Stays lo hi o = (after : ClientHeap) × (o ≡ some after) × IsSafe lo hi after
