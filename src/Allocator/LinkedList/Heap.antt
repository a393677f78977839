-- ===== src/Allocator/LinkedList/Heap.antt =====
-- When a list of free regions is a heap, and what taking one region out of it leaves.
use zoom_os.Prelude.{ℕ, ◌+◌, ◌%◌, ◌≤◌, ◌≡◌, refl, ◌⊎◌, inl, inr, List, [], ◌∷◌, arith, All}
use zoom_os.Allocator.LinkedList.{Region, node_size}

-- Two blocks of memory do not overlap.
abbrev pub Apart : Region → Region → Type 0
Apart r s = (r.start + r.size ≤ s.start) ⊎ (s.start + s.size ≤ r.start)

-- A free region between `lo` and `hi` that can hold its node.
pub record IsRegion (lo hi : ℕ) (r : Region) : Type 0 where
  pub aligned : r.start % 8 ≡ 0
  pub holds_node : node_size ≤ r.size
  pub above : lo ≤ r.start
  pub below : r.start + r.size ≤ hi

abbrev pub IsHeap : ℕ → ℕ → List Region → Type 0
IsHeap lo hi [] = Unit {0}
IsHeap lo hi (r ∷ free) = IsRegion lo hi r × All (Apart r) free × IsHeap lo hi free

-- The bytes on the list.
abbrev pub total : List Region → ℕ
total [] = 0
total (r ∷ free) = r.size + total free

-- `rest` is the list without one occurrence of `r`, in the same order.
pub data Unlinked (r : Region) : List Region → List Region → Type 0 where
  first : {free : List Region} → Unlinked r (r ∷ free) free
  later :
      {s : Region} {free rest : List Region}
      → Unlinked r free rest
      → Unlinked r (s ∷ free) (s ∷ rest)

pub Unlinked-All {ℓ} :
    (P : Region → Type ℓ) {r : Region} {free rest : List Region}
    → Unlinked r free rest
    → All P free
    → P r × All P rest
Unlinked-All P first h = h
Unlinked-All P (later u) h = let (p, ps) = Unlinked-All P u h.1 in (p, (h.0, ps))

pub Apart-sym : (r s : Region) → Apart r s → Apart s r
Apart-sym r s (inl h) = inr h
Apart-sym r s (inr h) = inl h

pub Unlinked-IsHeap :
    {lo hi : ℕ} {r : Region} {free rest : List Region}
    → Unlinked r free rest
    → IsHeap lo hi free
    → IsRegion lo hi r × All (Apart r) rest × IsHeap lo hi rest
Unlinked-IsHeap first h = h
Unlinked-IsHeap {r} (later {s} u) h =
    let (here, apart, heap) = Unlinked-IsHeap u h.2 in
    let (s_r, s_rest) = Unlinked-All (Apart s) u h.1 in
    (here, (Apart-sym s r s_r, apart), (h.0, s_rest, heap))

pub total-Unlinked :
    {r : Region} {free rest : List Region} → Unlinked r free rest → total free ≡ r.size + total rest
total-Unlinked first = refl
total-Unlinked (later u) = omega (arith, total-Unlinked u)

-- What is apart from a block is apart from each part of it.
pub Apart-part :
    (r part : Region) (free : List Region)
    → r.start ≤ part.start
    → part.start + part.size ≤ r.start + r.size
    → All (Apart r) free
    → All (Apart part) free
Apart-part r part [] lo hi h = tt
Apart-part r part (s ∷ free) lo hi h = (omega arith, Apart-part r part free lo hi h.1)
