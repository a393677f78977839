-- ===== src/Allocator/Block.antt =====
-- kernel/src/allocator/block.rs: lists of free blocks of fixed sizes over a fallback heap. The
-- lock and the interrupt guard round each call are those of `Sync`; here a call is one step.
pub mod Classes
pub mod Lists
pub mod Alloc
pub mod Dealloc
pub mod Reuse
mod Tests
use zoom_os.Prelude.{
  ℕ, suc, ◌+◌, max, Bool, false, Option, none, some, List, [], ◌∷◌, map, ltb, leb, ◌==◌,
  if◌then◌else◌, ◌>>=◌, get_elem?, set,
}
use zoom_os.Allocator.{Layout}

abbrev pub block_sizes : List ℕ
block_sizes = 8 ∷ 16 ∷ 32 ∷ 64 ∷ 128 ∷ 512 ∷ 1024 ∷ 2048 ∷ []

-- `linked_list_allocator::Heap`, a package. An `Err` of `allocate_first_fit` is `none`.
pub record Fallback : Type 1 where
  pub Heap : Type 0
  pub empty : Heap
  pub init : ℕ → ℕ → Heap → Heap
  pub allocate_first_fit : Layout → Heap → Option ℕ × Heap
  pub deallocate : ℕ → Layout → Heap → Heap

-- `iter().position(|&s| s >= required)`
abbrev pub position : ℕ → List ℕ → Option ℕ
position required [] = none
position required (s ∷ sizes) =
    if leb required s then some 0 else (position required sizes >>= λ i. some (suc i))

unfoldable pub list_index : Layout → Option ℕ
list_index layout = position (max layout.size layout.align) block_sizes

-- `ListNode::length` of a node, from the nodes behind it.
count_nodes : ℕ → List ℕ → ℕ
count_nodes count [] = count
count_nodes count (n ∷ next) = count_nodes (count + 1) next

unfoldable pub node_length : List ℕ → ℕ
unfolding count_nodes
node_length next = count_nodes 1 next

-- `if let Some(n) = &list_heads[index] && n.length() > 16`
unfoldable pub is_full : List ℕ → Bool
is_full [] = false
is_full (n ∷ next) = ltb 16 (node_length next)

abbrev pub block_layout : ℕ → Layout
block_layout size = record { size = size; align = size }

module _ (fallback : Fallback) where
  -- A list of free blocks is the addresses of its nodes, the head first.
  pub record BlockHeap : Type 0 where
    pub list_heads : List (List ℕ)
    pub fallback_allocator : fallback.Heap

  unfoldable pub new : BlockHeap
  new = record { list_heads = map (λ _. []) block_sizes; fallback_allocator = fallback.empty }

  unfoldable pub init : BlockHeap → ℕ → ℕ → BlockHeap
  init h heap_start heap_size = record h {
    fallback_allocator = fallback.init heap_start heap_size h.fallback_allocator;
  }

  -- Address 0 is the null pointer.
  unfoldable pub fallback_alloc : Layout → BlockHeap → ℕ × BlockHeap
  fallback_alloc layout h =
      let (result, heap) = fallback.allocate_first_fit layout h.fallback_allocator in
      (elim result [ some ptr ↦ ptr | none ↦ 0 ], record h { fallback_allocator = heap })

  -- The branch of `alloc` for a list: its first block, or a new one of its size.
  unfoldable pub take_block : ℕ → List ℕ → BlockHeap → Option (ℕ × BlockHeap)
  take_block index (node ∷ next) h =
      some (node, record h { list_heads = set h.list_heads index next })
  take_block index [] h = do
    block_size ← get_elem? block_sizes index
    some (fallback_alloc (block_layout block_size) h)

  -- `none` is a panic.
  unfoldable pub alloc : Layout → BlockHeap → Option (ℕ × BlockHeap)
  alloc layout h = elim (list_index layout) [
    | some index ↦ get_elem? h.list_heads index >>= λ list. take_block index list h
    | none ↦ some (fallback_alloc layout h)
  ]

  -- `NonNull::new(ptr).unwrap()`, and then the fallback's `deallocate`.
  unfoldable pub give_back : ℕ → Layout → BlockHeap → Option BlockHeap
  give_back ptr layout h =
      if ptr == 0
      then none
      else some
          (record h { fallback_allocator = fallback.deallocate ptr layout h.fallback_allocator })

  -- The branch of `dealloc` for a list. `ListNode` has 8 bytes and alignment 8.
  unfoldable pub put_block : ℕ → Layout → ℕ → List ℕ → ℕ → BlockHeap → Option BlockHeap
  put_block ptr layout index list block_size h =
      if is_full list
      then give_back ptr layout h
      else if leb 8 block_size
      then some (record h { list_heads = set h.list_heads index (ptr ∷ list) })
      else none

  unfoldable pub dealloc : ℕ → Layout → BlockHeap → Option BlockHeap
  dealloc ptr layout h = elim (list_index layout) [
    | some index ↦ do
      list ← get_elem? h.list_heads index
      block_size ← get_elem? block_sizes index
      put_block ptr layout index list block_size h
    | none ↦ give_back ptr layout h
  ]
