-- ===== src/Paging/Heap.antt =====
-- `init` of kernel/src/allocator.rs: each page of the heap gets a frame of its own, and then the
-- block allocator takes the heap over.
pub mod Mapping
pub mod Init
use zoom_os.Prelude.{
  ℕ, suc, ◌+◌, ◌-◌, ◌*◌, ◌%◌, ◌≤◌, ◌<◌, ◌≡◌, ◌≢◌, refl, sym, ◌∙◌, ap, subst, inl, inr, List, [],
  ◌∷◌, Option, none, some, arith, All, IsIn, ◌>>=◌,
}
use zoom_os.Word.{wrapping_add}
use zoom_os.Memory.{Frames, page_size}
use zoom_os.Allocator.Block
use zoom_os.Allocator.Block.{Fallback, BlockHeap}
use zoom_os.Paging.{Addresses, PageRanges, Mapper, Given, Mapped, Flag, present, writable, for_each}
use zoom_os.Paging.Pages.{
  pages_from, range-pages_from, All-pages_from, IsIn-pages_from, IsDistinct, pages_from-IsDistinct,
}

-- `KERNEL_HEAP_LEN`
abbrev pub heap_len : ℕ
heap_len = 32 * 1024 * 1024

abbrev pub heap_flags : List Flag
heap_flags = present ∷ writable ∷ []

-- `page_range`: from the page of the first byte to that of the last.
unfoldable pub heap_pages : Addresses → Frames → PageRanges → ℕ → Option (List ℕ)
heap_pages addresses pages ranges heap_start = do
  sum ← addresses.plus heap_start heap_len
  heap_end ← addresses.minus sum 1
  some (
      ranges.range (pages.containing_address page_size heap_start)
        (pages.containing_address page_size heap_end))

-- A page of the heap.
pub record IsHeapPage (heap_start page : ℕ) : Type 0 where
  pub aligned : page % page_size ≡ 0
  pub above : heap_start ≤ page
  pub below : page < heap_start + heap_len

module _ (mapper : Mapper) where
  -- The body of the loop over the pages; `none` is a failed `unwrap` or `expect`.
  unfoldable pub map_heap_page : ℕ → mapper.Machine → Option mapper.Machine
  map_heap_page page m = do
    (frame, m) ← mapper.allocate_frame m
    mapper.map_to page frame heap_flags m

  unfoldable pub init :
      Addresses
      → Frames
      → PageRanges
      → (fallback : Fallback) → ℕ
      → BlockHeap fallback
      → mapper.Machine
      → Option (mapper.Machine × BlockHeap fallback)
  init addresses pages ranges fallback heap_start allocator m = do
    page_range ← heap_pages addresses pages ranges heap_start
    m ← for_each map_heap_page page_range m
    some (m, Block.init fallback allocator heap_start heap_len)
