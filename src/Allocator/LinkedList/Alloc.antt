-- ===== src/Allocator/LinkedList/Alloc.antt =====
-- `alloc` and `dealloc` of kernel/src/allocator/linked_list.rs.
use zoom_os.Prelude.{
  ℕ, ◌+◌, ◌-◌, ◌%◌, ◌≤◌, max, ◌≡◌, refl, sym, subst, ◌⊎◌, inl, inr, List, ◌∷◌, Option, none, some,
  arith, All,
}
use zoom_os.Word.{usize_mod}
use zoom_os.Allocator.{Layout}
use zoom_os.Allocator.Align.{mod-eight}
use zoom_os.Allocator.LinkedList.{
  Region, Found, node_size, alloc_from_region, padded_align, padded_size, carve, alloc, dealloc,
}
use zoom_os.Allocator.LinkedList.Heap.{IsHeap, total, Unlinked-IsHeap}
use zoom_os.Allocator.LinkedList.Fit.{
  Fits, Search, find_region-Search, IsLayout, padded_align-pow, padded_size_lem, size_align_lem,
  power-le,
}
use zoom_os.Allocator.LinkedList.Carve.{Granted, carve-Granted, add_free_region_lem}

-- A null pointer with the list as it was, and then no region fits, or a block.
abbrev pub Outcome : (lo hi : ℕ) (layout : Layout) → List Region → Option (ℕ × List Region) → Type 0
Outcome lo hi layout free none = ⊥
Outcome lo hi layout free (some (p, rest)) =
    ((p ≡ 0)
      × (rest ≡ free)
      × All (λ r. alloc_from_region r (padded_size layout) (padded_align layout) ≡ none) free)
    ⊎ Granted lo hi (padded_size layout) (padded_align layout) free p rest

module _ (lo hi : ℕ) {power : ℕ} {layout : Layout} (valid : IsLayout layout power)
    (room : hi + padded_align layout ≤ usize_mod) where
  carve-Outcome :
      (free : List Region) (o : Option Found)
      → IsHeap lo hi free
      → Search (padded_size layout) (padded_align layout) free o
      → Outcome lo hi layout free (carve (padded_size layout) free o)
  unfolding carve
  carve-Outcome free none heap none_fits = inl (refl, refl, none_fits)
  carve-Outcome free (some f) heap (unlinked, fits) =
      let parts = Unlinked-IsHeap unlinked heap in
      let sizes = padded_size_lem valid in
      let (rest, e, g) =
        carve-Granted {lo = lo} {hi = hi} {size = padded_size layout} {j = max power 3}
          (omega arith) (power-le valid)
          (subst (λ a. hi + a ≤ usize_mod) (padded_align-pow valid) room) sizes.0 sizes.1 free f
          unlinked parts.0 parts.1 parts.2
          (subst (λ a. Fits f.region (padded_size layout) a f.alloc_start) (padded_align-pow valid)
            fits) in
      subst (Outcome lo hi layout free) (sym e) (
        inr (
          subst (λ a. Granted lo hi (padded_size layout) a free f.alloc_start rest)
            (sym (padded_align-pow valid)) g))

  -- An allocation does not panic. It gives a null pointer and leaves the list as it was, only if no
  -- free region fits; or it gives a block of one free region, aligned and within the heap, apart from
  -- all that stays free, and the list is a heap again.
  pub alloc-Outcome :
      (free : List Region) → IsHeap lo hi free → Outcome lo hi layout free (alloc layout free)
  unfolding alloc
  alloc-Outcome free heap =
      rw (size_align_lem valid, alloc)
        (carve-Outcome free _ heap
          (find_region-Search (padded_size layout) (padded_align layout) free))

  -- Giving a block back does not panic, the list is a heap again, and it has all the bytes from
  -- before the allocation but those that were skipped for the alignment.
  pub dealloc-IsHeap :
      (free rest : List Region) (p : ℕ)
      (g : Granted lo hi (padded_size layout) (padded_align layout) free p rest)
      → (after : List Region) × (dealloc p layout rest ≡ some after)
        × IsHeap lo hi after
        × (total after + (p - g.region.start) ≡ total free)
  unfolding dealloc
  dealloc-IsHeap free rest p g = (
    block ∷ rest,
    gives,
    (
      record { aligned = eighth; holds_node = sizes.1; above = g.above; below = g.below },
      g.apart,
      g.heap,
    ),
    omega (arith, g.accounted),
  )
    where
      block : Region
      block = record { start = p; size = padded_size layout }

      sizes :
          (padded_size layout % 8 ≡ 0)
          × (node_size ≤ padded_size layout)
          × (layout.size ≤ padded_size layout)
      sizes = padded_size_lem valid

      eighth : p % 8 ≡ 0
      eighth =
          mod-eight (max power 3) p (omega arith)
            (subst (λ a. p % a ≡ 0) (padded_align-pow valid) g.aligned)

      gives : dealloc p layout rest ≡ some (block ∷ rest)
      gives =
          rw (size_align_lem valid, dealloc)
            (add_free_region_lem p (padded_size layout) rest eighth sizes.1
              (omega (arith, g.below, sizes)))
