-- ===== src/Paging/Heap/Init.antt =====
-- `init` of kernel/src/allocator.rs as a whole.
use zoom_os.Prelude.{
  ℕ, ◌+◌, ◌-◌, ◌*◌, ◌/◌, ◌%◌, ◌^◌, ◌⊎◌, ◌≤◌, ◌<◌, ◌≡◌, refl, ap, inl, inr, some, arith, All-IsIn,
  IsIn,
}
use zoom_os.Word.{usize_mod}
use zoom_os.Memory.{Frames, page_size}
use zoom_os.Allocator.Block
use zoom_os.Allocator.Block.{Fallback, BlockHeap}
use zoom_os.Paging.{Addresses, PageRanges, Mapper}
use zoom_os.Paging.Pages.{
  pages_from, range-pages_from, All-pages_from, IsIn-pages_from, pages_from-IsDistinct,
  length-pages_from, above, below,
}
use zoom_os.Paging.Heap.{heap_len, heap_flags, heap_pages, IsHeapPage, init}
use zoom_os.Paging.Heap.Mapping.{HasFrame, HeapMapped, for_each-HeapMapped}

abbrev pub heap_page_count : ℕ
heap_page_count = heap_len / page_size

module _ (addresses : Addresses) (pages : Frames) (ranges : PageRanges) (heap_start : ℕ)
    (aligned : heap_start % page_size ≡ 0) (upper : usize_mod - 2 ^ 47 ≤ heap_start)
    (room : heap_start + heap_len < usize_mod) (mapper : Mapper) where
  open mapper use {Machine, frame_of, IsFree, left}

  -- The pages, counted.
  heap_pages_lem :
      (n : ℕ)
      → n * page_size ≡ heap_len
      → heap_pages addresses pages ranges heap_start ≡ some (pages_from heap_start n)
  unfolding heap_pages
  heap_pages_lem n e =
      rw
        (
          addresses.plus-new heap_start heap_len room,
          addresses.new-upper (heap_start + heap_len) (omega arith) room,
          addresses.minus-new (heap_start + heap_len) 1 (omega arith),
          addresses.new-upper (heap_start + heap_len - 1) (omega arith) (omega arith),
        )
        (ap some (
          rw (first, end_page)
            (range-pages_from ranges heap_start (heap_start + heap_len - page_size) n (omega arith)
              (omega arith))))
    where
      first : pages.containing_address page_size heap_start ≡ heap_start
      first = omega (
        arith,
        aligned,
        pages.contains page_size heap_start (omega arith),
        pages.multiple page_size heap_start,
      )

      end_page :
          pages.containing_address page_size (heap_start + heap_len - 1)
          ≡ heap_start + heap_len - page_size
      end_page = omega (
        arith,
        aligned,
        pages.contains page_size (heap_start + heap_len - 1) (omega arith),
        pages.multiple page_size (heap_start + heap_len - 1),
      )

  heap_page-IsIn :
      (n p : ℕ)
      → n * page_size ≡ heap_len
      → IsHeapPage heap_start p
      → IsIn p (pages_from heap_start n)
  heap_page-IsIn n p e h =
      IsIn-pages_from p heap_start n ((p - heap_start) / page_size)
        (omega (arith, aligned, h.aligned, h.above)) (omega (arith, h.below))

  outside :
      (n q : ℕ)
      → n * page_size ≡ heap_len
      → (q < heap_start) ⊎ (heap_start + heap_len ≤ q)
      → ¬ IsIn q (pages_from heap_start n)
  outside n q e (inl low) i = above q heap_start n low i
  outside n q e (inr high) i = below q heap_start n (omega arith) i

  spent :
      (n : ℕ) (m m' : Machine)
      → HeapMapped mapper (pages_from heap_start n) m m'
      → left m ≤ left m' + 4 * n
  spent n m m' mapped = omega (arith, mapped.counted, length-pages_from heap_start n)

  counted :
      (n : ℕ) (m : Machine) (fallback : Fallback) (allocator : BlockHeap fallback)
      → n * page_size ≡ heap_len
      → ((p : ℕ) → heap_start ≤ p → p < heap_start + heap_len → IsFree m p)
      → 4 * n ≤ left m
      → (m' : Machine) × (init mapper addresses pages ranges fallback heap_start allocator m
          ≡ some (m', Block.init fallback allocator heap_start heap_len))
        × HeapMapped mapper (pages_from heap_start n) m m'
  unfolding init
  counted n m fallback allocator e free enough =
      let (m', e', mapped) =
        for_each-HeapMapped mapper (pages_from heap_start n) m
          (All-pages_from (IsFree m) heap_start n
            (λ k lt. free (heap_start + k * page_size) (omega arith) (omega arith)))
          (pages_from-IsDistinct heap_start n) (omega (arith, length-pages_from heap_start n)) in
      (m', rw (heap_pages_lem n e, init, e') refl, mapped)

  -- Where the heap lies page-aligned in the upper half, its pages are free and four frames are left
  -- for each, the set-up does not panic: each page of the heap gets a frame that nobody had, no two
  -- the same, the other pages stay mapped or free, no more frames are spent, and the block allocator
  -- takes over these 32 MiB.
  pub init-HeapMapped :
      (m : Machine) (fallback : Fallback) (allocator : BlockHeap fallback)
      → ((p : ℕ) → heap_start ≤ p → p < heap_start + heap_len → IsFree m p)
      → 4 * heap_page_count ≤ left m
      → (m' : Machine) × (init mapper addresses pages ranges fallback heap_start allocator m
          ≡ some (m', Block.init fallback allocator heap_start heap_len))
        × ((p : ℕ) → IsHeapPage heap_start p → HasFrame mapper m m' p)
        × ((p q frame : ℕ)
            → IsHeapPage heap_start p
            → IsHeapPage heap_start q
            → frame_of m' p ≡ some (frame, heap_flags)
            → frame_of m' q ≡ some (frame, heap_flags)
            → p ≡ q)
        × ((q : ℕ) → (q < heap_start) ⊎ (heap_start + heap_len ≤ q) → frame_of m' q ≡ frame_of m q)
        × ((q : ℕ) → (q < heap_start) ⊎ (heap_start + heap_len ≤ q) → IsFree m q → IsFree m' q)
        × (left m ≤ left m' + 4 * heap_page_count)
  unfolding init
  init-HeapMapped m fallback allocator free enough =
      let (m', e, mapped) =
        counted heap_page_count m fallback allocator (omega arith) free enough in
      (
        m',
        e,
        λ p h.
            All-IsIn (HasFrame mapper m m') p (pages_from heap_start heap_page_count) mapped.each
              (heap_page-IsIn heap_page_count p (omega arith) h),
        λ p q frame hp hq.
            mapped.apart p q frame (heap_page-IsIn heap_page_count p (omega arith) hp)
              (heap_page-IsIn heap_page_count q (omega arith) hq),
        λ q out. mapped.elsewhere q (outside heap_page_count q (omega arith) out),
        λ q out. mapped.free q (outside heap_page_count q (omega arith) out),
        spent heap_page_count m m' mapped,
      )
