-- ===== src/Allocator/Block/Dealloc.antt =====
-- `dealloc` of kernel/src/allocator/block.rs.
use zoom_os.Prelude.{
  ℕ, ◌%◌, ◌≢◌, ◌≡◌, Option, none, some, List, ◌∷◌, arith, leb, ◌==◌, true, Option-cases, Bool-cases,
  inl, inr,
}
use native.Mathlib.Nat.{pow-le-pow_right}
use zoom_os.Allocator.{Layout}
use zoom_os.Allocator.Block.{
  Fallback, BlockHeap, block_sizes, list_index, is_full, give_back, put_block, dealloc,
}
use zoom_os.Allocator.Block.Classes.{block_power, is_full_lem}
use zoom_os.Allocator.Block.Lists.{
  IsList, AreLists-get, AreLists-set, IsBlock, IsValid, Class, Class-of,
}

module _ (fallback : Fallback) where
  -- What `dealloc` ensures: it does not panic, and the lists stay valid.
  abbrev pub Frees : Option (BlockHeap fallback) → Type 0
  Frees none = ⊥
  Frees (some h) = IsValid fallback h

  module _ (p : ℕ) (layout : Layout) (h : BlockHeap fallback) (not_null : p ≢ 0)
      (valid : IsValid fallback h) where
    give_back-Frees : Frees (give_back fallback p layout h)
    unfolding give_back
    give_back-Frees = elim (Bool-cases (p == 0)) [
      | inl zero ↦ absurd (not_null (ground arith))
      | inr more ↦ rw more valid
    ]

    put_block-Frees :
        (index size : ℕ) (list : List ℕ)
        → Class layout index size
        → IsList size list
        → p % size ≡ 0
        → Frees (put_block fallback p layout index list size h)
    unfolding put_block
    put_block-Frees index size list class l multiple = elim (Bool-cases (is_full list)) [
      | inl full ↦ rw full give_back-Frees
      | inr free ↦
          rw (free, node_fits)
            (AreLists-set block_sizes h.list_heads index size (p ∷ list) valid class.has_size
              (record {
                bounded = ground (arith, free, is_full_lem list);
                multiples = (multiple, l.multiples);
              }))
    ]
      where
        node_fits : leb 8 size ≡ true
        node_fits =
            let (k, e, low, _) = block_power index size class.has_size in
            ground (arith, e, pow-le-pow_right {n = 2} (omega arith) {i = 3} {j = k} low)

  -- Giving a block back does not panic and keeps the lists valid: no list grows beyond 17 blocks,
  -- and each block stands at a multiple of its list's size.
  pub dealloc-Frees :
      (p : ℕ) (layout : Layout) (h : BlockHeap fallback)
      → p ≢ 0
      → IsBlock layout p
      → IsValid fallback h
      → Frees (dealloc fallback p layout h)
  unfolding dealloc
  dealloc-Frees p layout h not_null block valid = elim (Option-cases (list_index layout)) [
    | inl e ↦ rw (e, dealloc) (give_back-Frees p layout h not_null valid)
    | inr (index, e) ↦
        let (size, class) = Class-of layout index e in
        let (list, got, l) =
          AreLists-get block_sizes h.list_heads index size valid class.has_size in
        rw (e, dealloc, got, class.has_size)
          (put_block-Frees p layout h not_null valid index size list class l
            (block index size e class.has_size))
  ]
