-- ===== src/Allocator/LinkedList/Trace/Safe.antt =====
-- Calls of kernel/src/allocator/linked_list.rs keep the heap safe.
use zoom_os.Prelude.{
  ℕ, zero, suc, ◌+◌, ◌%◌, ◌≤◌, ◌≡◌, refl, ap, subst, inl, inr, List, [], ◌∷◌, Option, none, some,
  arith, max, All, All-imp, All-get_elem?, some-injective, get_elem?, Option-cases, ◌>>=◌,
}
use zoom_os.Allocator.{Layout}
use zoom_os.Allocator.Align.{mod-eight}
use zoom_os.Allocator.LinkedList.{
  Region, padded_align, padded_size, alloc, dealloc, add_free_region,
}
use zoom_os.Allocator.LinkedList.Heap.{
  Apart, Apart-sym, Apart-part, IsHeap, IsRegion, Unlinked, first, later, Unlinked-All,
  Unlinked-IsHeap,
}
use zoom_os.Allocator.LinkedList.Fit.{padded_align-pow, padded_size_lem, size_align_lem}
use zoom_os.Allocator.LinkedList.Carve.{Granted, add_free_region_lem}
use zoom_os.Allocator.LinkedList.Alloc.{Outcome, alloc-Outcome}
use zoom_os.Allocator.LinkedList.Trace.{
  Held, ClientHeap, Call, allocates, frees, remove, keep, take_call, run_calls, block_of, blocks,
  IsRequest, IsHeld, IsSafe, Asks, Stays,
}

blocks-Unlinked :
    (live : List Held) (n : ℕ) {b : Held}
    → get_elem? live n ≡ some b
    → Unlinked (block_of b) (blocks live) (blocks (remove live n))
blocks-Unlinked [] n e = absurd (cc)
blocks-Unlinked (b ∷ live) zero e =
    subst (λ h. Unlinked (block_of h) (block_of b ∷ blocks live) (blocks live))
      (some-injective _ _ e) first
blocks-Unlinked (b ∷ live) (suc n) e = later (blocks-Unlinked live n e)

remove-All {ℓ} : (P : Held → Type ℓ) (live : List Held) (n : ℕ) → All P live → All P (remove live n)
remove-All P [] n h = tt
remove-All P (b ∷ live) zero h = h.1
remove-All P (b ∷ live) (suc n) h = (h.0, remove-All P live n h.1)

-- Blocks that are apart from all that is free, and from one more region, are apart from both.
joined :
    (part : Region) (free rs : List Region)
    → All (Apart part) rs
    → All (λ r. All (Apart r) free) rs
    → All (λ r. All (Apart r) (part ∷ free)) rs
joined part free [] h k = tt
joined part free (r ∷ rs) h k = ((Apart-sym part r h.0, k.0), joined part free rs h.1 k.1)

module _ (lo hi : ℕ) where
  take-IsSafe :
      (heap : ClientHeap) (n : ℕ) (b : Held)
      → get_elem? heap.live n ≡ some b
      → IsSafe lo hi heap
      → Stays lo hi (take_call (frees n) heap)
  unfolding take_call dealloc
  take-IsSafe heap n b e safe = (
    record { free = block_of b ∷ heap.free; live = remove heap.live n },
    rw (e, take_call)
        (rw (size_align_lem held.request.valid) (
          ap (λ o. o >>= (λ free. some (record { free = free; live = remove heap.live n })))
            given)),
    record {
      free =
          (parts.0, (Unlinked-All (λ r. All (Apart r) heap.free) unlinked safe.apart).0, safe.free);
      live = parts.2;
      held = remove-All (IsHeld hi) heap.live n safe.held;
      apart =
          joined (block_of b) heap.free (blocks (remove heap.live n)) parts.1
            (Unlinked-All (λ r. All (Apart r) heap.free) unlinked safe.apart).1;
    },
  )
    where
      unlinked : Unlinked (block_of b) (blocks heap.live) (blocks (remove heap.live n))
      unlinked = blocks-Unlinked heap.live n e

      held : IsHeld hi b
      held = All-get_elem? (IsHeld hi) heap.live n safe.held e

      parts :
          IsRegion lo hi (block_of b)
          × All (Apart (block_of b)) (blocks (remove heap.live n))
          × IsHeap lo hi (blocks (remove heap.live n))
      parts = Unlinked-IsHeap unlinked safe.live

      given : add_free_region b.ptr (padded_size b.layout) heap.free ≡ some (block_of b ∷ heap.free)
      given =
          add_free_region_lem b.ptr (padded_size b.layout) heap.free parts.0.aligned
            parts.0.holds_node
            (omega (arith, parts.0.below, held.request.room, padded_size_lem held.request.valid))

  -- A block inside a region that was free is apart from every live block.
  fresh :
      (region block : Region) (free others live : List Region)
      → Unlinked region free others
      → region.start ≤ block.start
      → block.start + block.size ≤ region.start + region.size
      → All (λ r. All (Apart r) free) live
      → All (Apart block) live
  fresh region block free others [] u starts ends h = tt
  fresh region block free others (r ∷ live) u starts ends h = (
    (Apart-part region block (r ∷ []) starts ends
        (Apart-sym r region (Unlinked-All (Apart r) u h.0).0, tt)).0,
    fresh region block free others live u starts ends h.1,
  )

  take-Granted :
      (heap : ClientHeap) (layout : Layout) (request : IsRequest hi layout) (p : ℕ)
      (rest : List Region)
      → 1 ≤ lo
      → IsSafe lo hi heap
      → Granted lo hi (padded_size layout) (padded_align layout) heap.free p rest
      → IsSafe lo hi (keep layout heap.live (p, rest))
  take-Granted heap layout request p rest low safe g = rw held_now record {
    free = g.heap;
    live = (
      record {
        aligned = eighth;
        holds_node = (padded_size_lem request.valid).1;
        above = g.above;
        below = g.below;
      },
      fresh g.region block heap.free g.others (blocks heap.live) g.unlinked g.starts g.ends
          safe.apart,
      safe.live,
    );
    held = (record { request = request; aligned = g.aligned }, safe.held);
    apart = (g.apart, All-imp (λ r h. g.parts r h) (blocks heap.live) safe.apart);
  }
    where
      block : Region
      block = record { start = p; size = padded_size layout }

      held_now :
          keep layout heap.live (p, rest)
          ≡ record { free = rest; live = record { ptr = p; layout = layout } ∷ heap.live }
      held_now = ground (arith, g.above, low)

      eighth : p % 8 ≡ 0
      eighth =
          mod-eight (max request.power 3) p (omega arith)
            (subst (λ a. p % a ≡ 0) (padded_align-pow request.valid) g.aligned)

  take-Outcome :
      (heap : ClientHeap) (layout : Layout) (request : IsRequest hi layout)
      (o : Option (ℕ × List Region))
      → 1 ≤ lo
      → IsSafe lo hi heap
      → Outcome lo hi layout heap.free o
      → Stays lo hi (o >>= (λ r. some (keep layout heap.live r)))
  take-Outcome heap layout request none low safe h = absurd h
  take-Outcome heap layout request (some (p, rest)) low safe (inl (null, same, no_fit)) =
      let kept : keep layout heap.live (p, rest) ≡ heap = ground (arith, null, same) in
      (heap, ap some kept, safe)
  take-Outcome heap layout request (some (p, rest)) low safe (inr g) =
      (keep layout heap.live (p, rest), refl, take-Granted heap layout request p rest low safe g)

  take_call-IsSafe :
      (heap : ClientHeap) (c : Call)
      → 1 ≤ lo
      → Asks hi c
      → IsSafe lo hi heap
      → Stays lo hi (take_call c heap)
  unfolding take_call
  take_call-IsSafe heap (allocates layout) low asks safe =
      take-Outcome heap layout asks (alloc layout heap.free) low safe
        (alloc-Outcome lo hi asks.valid asks.room heap.free safe.free)
  take_call-IsSafe heap (frees n) low asks safe = elim (Option-cases (get_elem? heap.live n)) [
    | inl e ↦ (heap, rw (e, take_call) refl, safe)
    | inr (b, e) ↦ take-IsSafe heap n b e safe
  ]

  -- From a heap above address 0 where it holds, a run of calls that frees only live blocks, and asks
  -- for valid layouts only, does not panic and leaves: the free regions and the live blocks all within
  -- the heap, no two of them overlapping, each block aligned as was asked for.
  pub run_calls-IsSafe :
      (heap : ClientHeap) (calls : List Call)
      → 1 ≤ lo
      → All (Asks hi) calls
      → IsSafe lo hi heap
      → (after : ClientHeap) × (run_calls calls heap ≡ some after) × IsSafe lo hi after
  unfolding run_calls
  run_calls-IsSafe heap [] low asks safe = (heap, refl, safe)
  run_calls-IsSafe heap (c ∷ calls) low asks safe =
      let (next, e, next_safe) = take_call-IsSafe heap c low asks.0 safe in
      let (after, e_after, after_safe) = run_calls-IsSafe next calls low asks.1 next_safe in
      (after, rw (e, run_calls) e_after, after_safe)
