-- ===== src/Allocator/Block/Tests.antt =====
-- Runs of the block allocator over a small fallback heap, and its theorems there.
use native.Mathlib.Nat.{mul-mod_left}
use zoom_os.Prelude.{
  ℕ, suc, ◌*◌, ◌%◌, ◌≡◌, refl, ap, Option, none, some, List, [], ◌∷◌, arith, length, ◌==◌,
  get_elem?, if◌then◌else◌, some-injective, sym, subst, ◌∙◌,
}
use zoom_os.Allocator.{Layout}
use zoom_os.Allocator.Block.{
  Fallback, BlockHeap, block_sizes, list_index, dealloc, take_block, alloc, fallback_alloc,
  block_layout, new, init,
}
use zoom_os.Allocator.Block.Lists.{IsBlock, IsValid}
use zoom_os.Allocator.Block.Alloc.{Allocates, alloc-Allocates}
use zoom_os.Allocator.Block.Dealloc.{Frees, dealloc-Frees}
use zoom_os.Allocator.Block.Reuse.{Contract}

-- A fallback heap that remembers what it lent, the last block first.
abbrev Ledger : Type 0
Ledger = List (ℕ × Layout)

layout_of : ℕ → Ledger → Option Layout
layout_of p [] = none
layout_of p ((q, layout) ∷ heap) = if q == p then some layout else layout_of p heap

forget : ℕ → Ledger → Ledger
forget p [] = []
forget p ((q, layout) ∷ heap) = if q == p then heap else (q, layout) ∷ forget p heap

abbrev next_block : Layout → Ledger → ℕ
next_block layout heap = suc (length heap) * layout.align

abbrev ledger : Fallback
ledger = record {
  Heap = Ledger;
  empty = [];
  init = λ start size heap. heap;
  allocate_first_fit =
      λ layout heap. (some (next_block layout heap), (next_block layout heap, layout) ∷ heap);
  deallocate = λ p layout heap. forget p heap;
}

ledger_aligned :
    (layout : Layout) (heap : Ledger) (p : ℕ)
    → (ledger.allocate_first_fit layout heap).0 ≡ some p
    → p % layout.align ≡ 0
ledger_aligned layout heap p e =
    ap (λ q. q % layout.align) (sym (some-injective (next_block layout heap) p e))
    ∙ mul-mod_left (suc (length heap)) layout.align

ledger_allocates :
    (layout : Layout) (heap : Ledger) (p : ℕ)
    → (ledger.allocate_first_fit layout heap).0 ≡ some p
    → layout_of p (ledger.allocate_first_fit layout heap).1 ≡ some layout
unfolding layout_of
ledger_allocates layout heap p e = ground (arith, some-injective (next_block layout heap) p e)

one_ledger_layout :
    (heap : Ledger) (p : ℕ) (l k : Layout)
    → layout_of p heap ≡ some l
    → layout_of p heap ≡ some k
    → l ≡ k
one_ledger_layout heap p l k e f = some-injective l k (sym e ∙ f)

abbrev ledger_contract : Contract ledger
ledger_contract = record {
  Lent = λ heap p layout. layout_of p heap ≡ some layout;
  one_layout = one_ledger_layout;
  allocates = ledger_allocates;
}

abbrev key : Layout
key = record { size = 40; align = 8 }

abbrev other_key : Layout
other_key = record { size = 64; align = 16 }

key_class : (list_index key ≡ some 3) × (list_index other_key ≡ some 3)
unfolding list_index
key_class = (refl, refl)

-- 200 bytes take a block of 512.
class_gap : list_index (record { size = 200; align = 8 }) ≡ some 5
unfolding list_index
class_gap = refl

abbrev fresh_heap : BlockHeap ledger
fresh_heap = record {
  list_heads = [] ∷ [] ∷ [] ∷ [] ∷ [] ∷ [] ∷ [] ∷ [] ∷ [];
  fallback_allocator = [];
}

new_runs : init ledger (new ledger) 4096 8192 ≡ fresh_heap
unfolding new init
new_runs = refl

fresh-IsValid : IsValid ledger fresh_heap
fresh-IsValid = omega arith

key_taken :
    alloc ledger key fresh_heap
    ≡ some (64, record fresh_heap { fallback_allocator = (64, block_layout 64) ∷ [] })
unfolding alloc list_index take_block fallback_alloc
key_taken = refl

alloc-Allocates_example : Allocates ledger ledger_aligned key (alloc ledger key fresh_heap)
alloc-Allocates_example = alloc-Allocates ledger ledger_aligned key 3 fresh_heap refl fresh-IsValid

key-IsBlock : IsBlock key 64
key-IsBlock i s e f =
    let index : 3 ≡ i = some-injective 3 i (sym key_class.0 ∙ e) in
    let size : 64 ≡ s =
      some-injective 64 s (subst (λ j. get_elem? block_sizes j ≡ some s) (sym index) f) in
    subst (λ b. 64 % b ≡ 0) size refl

dealloc-Frees_example : Frees ledger (dealloc ledger 64 key fresh_heap)
dealloc-Frees_example =
    dealloc-Frees ledger 64 key fresh_heap (λ e. omega arith) key-IsBlock fresh-IsValid
