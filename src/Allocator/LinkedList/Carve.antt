-- ===== src/Allocator/LinkedList/Carve.antt =====
-- What `alloc` does with the region it found: the blocks of kernel/src/allocator/linked_list.rs.
use native.Mathlib.Nat.{mod-eq_of_lt, pow-le-pow_right}
use zoom_os.Prelude.{ℕ, ◌+◌, ◌-◌, ◌%◌, ◌^◌, ◌≤◌, ◌<◌, ◌≡◌, inl, inr, List, ◌∷◌, some, arith, All}
use zoom_os.Word.{usize_mod}
use zoom_os.Allocator.Align.{align_up_lem, mod-eight}
use zoom_os.Allocator.LinkedList.{Region, Found, node_size, end_addr, carve, add_free_region}
use zoom_os.Allocator.LinkedList.Heap.{
  Apart, IsRegion, IsHeap, total, Unlinked, Unlinked-All, total-Unlinked, Apart-part,
}
use zoom_os.Allocator.LinkedList.Fit.{Fits}

pub add_free_region_lem :
    (addr size : ℕ) (free : List Region)
    → addr % 8 ≡ 0
    → node_size ≤ size
    → addr + 8 ≤ usize_mod
    → add_free_region addr size free ≡ some (record { start = addr; size = size } ∷ free)
unfolding add_free_region
add_free_region_lem addr size free h k fits = ground (arith, align_up_lem 3 addr (omega arith) fits)

-- What a caller gets with a pointer `p` that is not null, where `size` and `align` are the padded
-- ones: an aligned block inside one region that was free, that overlaps nothing that stays free.
-- The bytes in front of the block, up to its alignment, are on no list.
pub record Granted (lo hi size align : ℕ) (free : List Region) (p : ℕ) (rest : List Region)
    : Type 0 where
  pub region : Region
  pub others : List Region
  pub unlinked : Unlinked region free others
  pub starts : region.start ≤ p
  pub ends : p + size ≤ region.start + region.size
  pub accounted : total rest + size + (p - region.start) ≡ total free
  pub aligned : p % align ≡ 0
  pub above : lo ≤ p
  pub below : p + size ≤ hi
  pub apart : All (Apart (record { start = p; size = size })) rest
  pub heap : IsHeap lo hi rest
  -- What is apart from all that was free is apart from what stays free.
  pub parts : (q : Region) → All (Apart q) free → All (Apart q) rest

module _ {lo hi size j : ℕ} (big : 3 ≤ j) (few : j ≤ 63) (room : hi + 2 ^ j ≤ usize_mod)
    (multiple : size % 8 ≡ 0) (holds_node : node_size ≤ size) where
  pub carve-Granted :
      (free : List Region) (f : Found)
      → Unlinked f.region free f.rest
      → IsRegion lo hi f.region
      → All (Apart f.region) f.rest
      → IsHeap lo hi f.rest
      → Fits f.region size (2 ^ j) f.alloc_start
      → (rest : List Region) × (carve size free (some f) ≡ some (f.alloc_start, rest))
        × Granted lo hi size (2 ^ j) free f.alloc_start rest
  unfolding carve
  carve-Granted free f unlinked valid apart heap fits = elim fits.exact_or_roomy [
    | inl exact ↦ (
      f.rest,
      ground (arith, no_wrap, end),
      record {
        region = f.region;
        others = f.rest;
        unlinked = unlinked;
        starts = rounds.1;
        ends = omega (arith, end);
        accounted = omega (arith, total-Unlinked unlinked, rounds, end);
        aligned = rounds.0;
        above = omega (arith, rounds);
        below = omega (arith, end);
        apart = Apart-part f.region block f.rest rounds.1 (omega (arith, end)) apart;
        heap = heap;
        parts = λ q h. (Unlinked-All (Apart q) unlinked h).1;
      },
    )
    | inr roomy ↦ (
      excess ∷ f.rest,
      ground (arith, no_wrap, end, kept roomy),
      record {
        region = f.region;
        others = f.rest;
        unlinked = unlinked;
        starts = rounds.1;
        ends = omega (arith, end);
        accounted = omega (arith, total-Unlinked unlinked, rounds, end);
        aligned = rounds.0;
        above = omega (arith, rounds);
        below = omega (arith, end);
        apart = (
          inl (omega arith),
          Apart-part f.region block f.rest rounds.1 (omega (arith, end)) apart,
        );
        heap = (
          record {
            aligned = omega (arith, rounds, eighth);
            holds_node = omega (arith, end);
            above = omega (arith, rounds);
            below = omega (arith, end);
          },
          Apart-part f.region excess f.rest (omega (arith, rounds)) (omega (arith, end)) apart,
          heap,
        );
        parts = λ q h.
            let (q_region, q_others) = Unlinked-All (Apart q) unlinked h in
            (apart_excess q q_region, q_others);
      },
    )
  ]
    where
      p : ℕ
      p = f.alloc_start

      top : ℕ
      top = f.region.start + f.region.size

      block : Region
      block = record { start = p; size = size }

      excess : Region
      excess = record { start = p + size; size = top - (p + size) }

      eight : 8 ≤ 2 ^ j
      eight = pow-le-pow_right {n = 2} (omega arith) {i = 3} {j = j} big

      no_wrap : top < usize_mod
      no_wrap = omega arith

      end : end_addr f.region ≡ top
      end = mod-eq_of_lt no_wrap

      rounds : (p % 2 ^ j ≡ 0) × (f.region.start ≤ p)
      rounds = let r = align_up_lem j f.region.start few (omega arith) in rw fits.rounded (r.0, r.1)

      apart_excess : (q : Region) → Apart q f.region → Apart q excess
      apart_excess q h = elim h [
        | inl before ↦ inl (omega (arith, before, rounds))
        | inr after ↦ inr (omega (arith, after, end))
      ]

      eighth : p % 8 ≡ 0
      eighth = mod-eight j p big rounds.0

      kept :
          p + size + node_size ≤ end_addr f.region
          → add_free_region (p + size) (top - (p + size)) f.rest ≡ some (excess ∷ f.rest)
      kept roomy =
          add_free_region_lem (p + size) (top - (p + size)) f.rest (omega (arith, eighth))
            (omega (arith, end)) (omega (arith, end))
