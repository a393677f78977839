-- ===== src/Allocator/Block/Alloc.antt =====
-- `alloc` of kernel/src/allocator/block.rs.
use native.Mathlib.Nat.{zero-mod}
use zoom_os.Prelude.{
  ℕ, ◌%◌, ◌^◌, ◌≡◌, refl, Option, none, some, List, [], ◌∷◌, arith, get_elem?, Option-cases, ◌>>=◌,
  inl, inr, subst, sym, ◌∙◌,
}
use zoom_os.Allocator.{Layout}
use zoom_os.Allocator.Block.{
  Fallback, BlockHeap, block_sizes, list_index, block_layout, fallback_alloc, take_block, alloc,
}
use zoom_os.Allocator.Block.Lists.{
  IsList, AreLists, AreLists-get, AreLists-set, IsBlock, IsValid, Class, Class-of, Class-aligned,
  Class-IsBlock,
}

none≢some : {i : ℕ} → ◌≡◌ {A = Option ℕ} none (some i) → ⊥
none≢some e = cc

module _ (fallback : Fallback)
    (fallback_aligned : (layout : Layout) (heap : fallback.Heap) (p : ℕ)
      → (fallback.allocate_first_fit layout heap).0 ≡ some p
      → p % layout.align ≡ 0) where
  fallback_alloc_lem :
      (layout : Layout) (h : BlockHeap fallback)
      → ((fallback_alloc fallback layout h).0 % layout.align ≡ 0)
        × ((fallback_alloc fallback layout h).1.list_heads ≡ h.list_heads)
  unfolding fallback_alloc
  fallback_alloc_lem layout h =
      ground
        (arith, zero-mod layout.align, null_or _ (fallback_aligned layout h.fallback_allocator))
    where
      null_or :
          (o : Option ℕ)
          → ((p : ℕ) → o ≡ some p → p % layout.align ≡ 0)
          → elim o as (λ _. ℕ) [ some ptr ↦ ptr | none ↦ 0 ] % layout.align ≡ 0
      null_or none h = zero-mod layout.align
      null_or (some p) h = h p refl

  -- What `alloc` ensures: it does not panic, the pointer is null or aligned, and the lists stay valid.
  abbrev pub Allocates : Layout → Option (ℕ × BlockHeap fallback) → Type 0
  Allocates layout none = ⊥
  Allocates layout (some (p, h)) = (p % layout.align ≡ 0) × IsBlock layout p × IsValid fallback h

  module _ {layout : Layout} (k : ℕ) (power : layout.align ≡ 2 ^ k) (h : BlockHeap fallback)
      (valid : IsValid fallback h) where
    take_block-Allocates :
        (index size : ℕ) (list : List ℕ)
        → Class layout index size
        → IsList size list
        → Allocates layout (take_block fallback index list h)
    unfolding take_block
    take_block-Allocates index size [] class l = rw class.has_size (
        let (aligned, same) = fallback_alloc_lem (block_layout size) h in
        (
          Class-aligned k power class _ aligned,
          Class-IsBlock class _ aligned,
          subst (AreLists block_sizes) (sym same) valid,
        ))
    take_block-Allocates index size (node ∷ next) class l = (
      Class-aligned k power class node l.multiples.0,
      Class-IsBlock class node l.multiples.0,
      AreLists-set block_sizes h.list_heads index size next valid class.has_size
          (record { bounded = omega (arith, l.bounded); multiples = l.multiples.1 }),
    )

    alloc_from_list :
        (index size : ℕ)
        → Class layout index size
        → Allocates layout
            (get_elem? h.list_heads index >>= λ list. take_block fallback index list h)
    alloc_from_list index size class =
        let (list, e, l) = AreLists-get block_sizes h.list_heads index size valid class.has_size in
        rw e (take_block-Allocates index size list class l)

  -- An allocation does not panic and keeps the lists valid. The pointer is null, or a multiple of
  -- the alignment asked for, and of the block size where the layout has a class.
  pub alloc-Allocates :
      (layout : Layout) (k : ℕ) (h : BlockHeap fallback)
      → layout.align ≡ 2 ^ k
      → IsValid fallback h
      → Allocates layout (alloc fallback layout h)
  unfolding alloc
  alloc-Allocates layout k h power valid = elim (Option-cases (list_index layout)) [
    | inr (index, e) ↦
        let (size, class) = Class-of layout index e in
        rw (e, alloc) (alloc_from_list k power h valid index size class)
    | inl e ↦
        let (aligned, same) = fallback_alloc_lem layout h in
        rw (e, alloc)
          (
            aligned,
            λ i s f. absurd (none≢some (sym e ∙ f)),
            subst (AreLists block_sizes) (sym same) valid,
          )
  ]
