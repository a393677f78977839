-- ===== src/Allocator/Block/Reuse.antt =====
-- `alloc` and `dealloc` of kernel/src/allocator/block.rs together.
use zoom_os.Prelude.{
  ℕ, ◌≤◌, ◌≡◌, some, List, [], ◌∷◌, arith, length, leb, get_elem?, set, set-set, set-get_elem?,
  get_elem?-set, true, false,
}
use native.Mathlib.Nat.{pow-le-pow_right}
use zoom_os.Allocator.{Layout}
use zoom_os.Allocator.Block.{
  Fallback, BlockHeap, block_sizes, list_index, is_full, put_block, dealloc, take_block, alloc,
  fallback_alloc, block_layout,
}
use zoom_os.Allocator.Block.Classes.{block_power, is_full_lem}

node_fits : (index size : ℕ) → get_elem? block_sizes index ≡ some size → leb 8 size ≡ true
node_fits index size e =
    let (k, s, low, _) = block_power index size e in
    ground (arith, s, pow-le-pow_right {n = 2} (omega arith) {i = 3} {j = k} low)

module _ (fallback : Fallback) where
  -- A block given back while its list has at most 16 blocks is the next one handed out for any
  -- layout of the same class, and the heap is then what it was.
  pub alloc-dealloc :
      (p : ℕ) (layout other : Layout) (h : BlockHeap fallback) (index size : ℕ) (list : List ℕ)
      → list_index layout ≡ some index
      → list_index other ≡ some index
      → get_elem? block_sizes index ≡ some size
      → get_elem? h.list_heads index ≡ some list
      → length list ≤ 16
      → (freed : BlockHeap fallback) × (dealloc fallback p layout h ≡ some freed)
        × (alloc fallback other freed ≡ some (p, h))
  unfolding alloc dealloc put_block take_block
  alloc-dealloc p layout other h index size list e o s g few = (
    record h { list_heads = set h.list_heads index (p ∷ list) },
    rw (e, dealloc, g, s, free, node_fits index size s),
    rw (
      o,
      alloc,
      get_elem?-set h.list_heads index {w = p ∷ list} g,
      set-set h.list_heads index (p ∷ list) list,
      set-get_elem? h.list_heads index g,
    ),
  )
    where
      free : is_full list ≡ false
      free = ground (arith, is_full_lem list)

-- What the documentation of the fallback heap asks of its callers: `Lent heap p layout` says that
-- the block at `p` was allocated with `layout` and not yet given back, and it may be given back with
-- that layout only.
pub record Contract (fallback : Fallback) : Type 1 where
  pub Lent : fallback.Heap → ℕ → Layout → Type 0
  pub one_layout :
      (heap : fallback.Heap) (p : ℕ) (l k : Layout) → Lent heap p l → Lent heap p k → l ≡ k
  pub allocates :
      (layout : Layout) (heap : fallback.Heap) (p : ℕ)
      → (fallback.allocate_first_fit layout heap).0 ≡ some p
      → Lent (fallback.allocate_first_fit layout heap).1 p layout

module _ (fallback : Fallback) (contract : Contract fallback) where
  open contract use {Lent, one_layout, allocates}

  -- A block that `alloc` gets from the fallback heap is lent with the block size for its layout.
  pub alloc-Lent :
      (layout : Layout) (h : BlockHeap fallback) (index size p : ℕ)
      → list_index layout ≡ some index
      → get_elem? block_sizes index ≡ some size
      → get_elem? h.list_heads index ≡ some []
      → (fallback.allocate_first_fit (block_layout size) h.fallback_allocator).0 ≡ some p
      → (after : BlockHeap fallback) × (alloc fallback layout h ≡ some (p, after))
        × Lent after.fallback_allocator p (block_layout size)
  unfolding alloc take_block fallback_alloc
  alloc-Lent layout h index size p e s g got = (
    record h {
      fallback_allocator = (fallback.allocate_first_fit (block_layout size) h.fallback_allocator).1;
    },
    rw (e, alloc, g, s, got),
    allocates (block_layout size) h.fallback_allocator p got,
  )
