-- ===== src/Paging/Sample.antt =====
-- A small machine with page tables, on which the tests run.
use native.Mathlib.Nat.{add-mul, div-eq_of_lt-le, div-mul_cancel, dvd_of_mod-eq-zero, one-le-pow}
use zoom_os.Prelude.{
  ℕ, zero, suc, ◌&&◌, ◌+◌, ◌-◌, ◌*◌, ◌/◌, ◌%◌, ◌^◌, ◌≤◌, ◌<◌, ◌≡◌, refl, ap, List, [], ◌∷◌, Option,
  none, some, arith, ◌==◌, leb, ltb, if◌then◌else◌, ◌>>=◌,
}
use zoom_os.Word.{usize_mod}
use zoom_os.Memory.{page_size}
use zoom_os.Paging.{Addresses, PageRanges, Mapper, Given, Mapped, Unmapped, Flag}
use zoom_os.Allocator.Block.{Fallback}

-- Frames are handed out in their order.
pub record Toy : Type 0 where
  pub table : ℕ → Option (ℕ × List Flag)
  pub next : ℕ
  pub left : ℕ

pub toy_allocate : Toy → Option (ℕ × Toy)
toy_allocate m =
    if m.left == 0
    then none
    else some (m.next, record m { next = m.next + page_size; left = m.left - 1 })

pub toy_map : ℕ → ℕ → List Flag → Toy → Option Toy
toy_map page frame flags m = elim (m.table page) [
  | some entry ↦ none
  | none ↦ some (record m { table = λ q. if q == page then some (frame, flags) else m.table q })
]

pub toy_unmap : ℕ → Toy → Option (ℕ × Toy)
toy_unmap page m = m.table page >>= λ entry.
    some (entry.0, record m { table = λ q. if q == page then none else m.table q })

abbrev pub ToyTaken : Toy → ℕ → Type 0
ToyTaken m frame = frame < m.next

abbrev pub ToyFree : Toy → ℕ → Type 0
ToyFree m page = m.table page ≡ none

pub toy_allocate_lem :
    (m : Toy)
    → 1 ≤ m.left
    → (frame : ℕ) × (m' : Toy) × (toy_allocate m ≡ some (frame, m'))
      × Given (λ n. n.left) ToyTaken ToyFree (λ n. n.table) frame m m'
unfolding toy_allocate
toy_allocate_lem m enough = (
  m.next,
  record m { next = m.next + page_size; left = m.left - 1 },
  ground arith,
  record {
    counted = omega arith;
    unused = omega arith;
    used = omega arith;
    taken = λ f h. omega arith;
    free = λ q h. h;
    tables = λ q. refl;
  },
)

pub toy_map_lem :
    (page frame : ℕ) (flags : List Flag) (m : Toy)
    → m.table page ≡ none
    → 3 ≤ m.left
    → (m' : Toy) × (toy_map page frame flags m ≡ some m')
      × Mapped (λ n. n.left) ToyTaken ToyFree (λ n. n.table) page frame flags m m'
unfolding toy_map
toy_map_lem page frame flags m free enough = (
  record m { table = λ q. if q == page then some (frame, flags) else m.table q },
  ground (arith, free),
  record {
    counted = omega arith;
    taken = λ f h. h;
    free = λ q other h. ground arith;
    here = ground arith;
    elsewhere = λ q other. ground arith;
  },
)

pub toy_map_already :
    (page frame : ℕ) (flags : List Flag) (m : Toy) (entry : ℕ × List Flag)
    → m.table page ≡ some entry
    → toy_map page frame flags m ≡ none
unfolding toy_map
toy_map_already page frame flags m entry e = ground (arith, e)

pub toy_unmap_lem :
    (page : ℕ) (m : Toy) (frame : ℕ) (flags : List Flag)
    → m.table page ≡ some (frame, flags)
    → (m' : Toy) × (toy_unmap page m ≡ some (frame, m')) × Unmapped ToyFree (λ n. n.table) page m m'
unfolding toy_unmap
toy_unmap_lem page m frame flags e = (
  record m { table = λ q. if q == page then none else m.table q },
  rw (e, toy_unmap) refl,
  record { gone = ground arith; kept = λ q other. ground arith },
)

abbrev pub toy : Mapper
toy = record {
  Machine = Toy;
  allocate_frame = toy_allocate;
  map_to = toy_map;
  unmap = toy_unmap;
  frame_of = λ m page. m.table page;
  left = λ m. m.left;
  IsTaken = ToyTaken;
  IsFree = ToyFree;
  allocate_frame-Given = toy_allocate_lem;
  map_to-Mapped = toy_map_lem;
  map_to-already = toy_map_already;
  free_lem = λ m page h. h;
  unmap-Unmapped = toy_unmap_lem;
}

-- The pages from one to another, counted.
pub pages_up : ℕ → ℕ → List ℕ
pages_up start zero = []
pages_up start (suc n) = start ∷ pages_up (start + page_size) n

pub step_count : ℕ → ℕ → ℕ
step_count start end = if ltb end start then 0 else suc ((end - start) / page_size)

pub ranges_next :
    (start end : ℕ)
    → start ≤ end
    → pages_up start (step_count start end)
      ≡ start ∷ pages_up (start + page_size) (step_count (start + page_size) end)
unfolding pages_up step_count
ranges_next start end le =
    let e : step_count start end ≡ suc (step_count (start + page_size) end) = ground arith in
    rw e refl

pub ranges_end : (start end : ℕ) → end < start → pages_up start (step_count start end) ≡ []
unfolding pages_up step_count
ranges_end start end lt = let e : step_count start end ≡ 0 = ground arith in rw e refl

abbrev pub page_ranges : PageRanges
page_ranges = record {
  range = λ start end. pages_up start (step_count start end);
  range-next = ranges_next;
  range-end = ranges_end;
}

pub canonical : ℕ → Option ℕ
canonical addr =
    if ltb addr (2 ^ 47)
    then some addr
    else if ltb addr usize_mod && leb (usize_mod - 2 ^ 47) addr
    then some addr
    else none

pub canonical-upper :
    (addr : ℕ) → usize_mod - 2 ^ 47 ≤ addr → addr < usize_mod → canonical addr ≡ some addr
unfolding canonical
canonical-upper addr le lt = ground arith

pub round_up : ℕ → ℕ → ℕ
round_up addr size = (addr + size - 1) / size * size

pub round_up_lem :
    (addr size up : ℕ)
    → 0 < size
    → addr ≤ up
    → up < addr + size
    → up % size ≡ 0
    → round_up addr size ≡ up
unfolding round_up
round_up_lem addr size up pos le lt multiple =
    rw
      (div-eq_of_lt-le {k = up / size} size {m = addr + size - 1} (omega (arith, whole))
        (omega (arith, whole, next)))
      whole
  where
    whole : up / size * size ≡ up
    whole = div-mul_cancel size (dvd_of_mod-eq-zero size multiple)

    next : (up / size + 1) * size ≡ up / size * size + size
    next = omega (arith, add-mul (up / size) 1 size)

pub below_2_52 : ℕ → Option ℕ
below_2_52 addr = if ltb addr (2 ^ 52) then some addr else none

pub below_2_52_lem : (addr : ℕ) → addr < 2 ^ 52 → below_2_52 addr ≡ some addr
unfolding below_2_52
below_2_52_lem addr lt = ground arith

abbrev pub virt_addrs : Addresses
unfolding canonical round_up
virt_addrs = record {
  new = canonical;
  plus = λ addr n. canonical (addr + n);
  minus = λ addr n. canonical (addr - n);
  align_up = λ addr align. canonical (round_up addr align);
  physical = below_2_52;
  physical-some = below_2_52_lem;
  new-upper = canonical-upper;
  plus-new = λ addr n lt. refl;
  minus-new = λ addr n le. refl;
  align_up-new = λ addr power up le lt multiple below.
      ap canonical
        (round_up_lem addr (2 ^ power) up (one-le-pow power 2 (omega arith)) le lt multiple);
}

pub new-lower : (addr : ℕ) → addr < 2 ^ 47 → virt_addrs.new addr ≡ some addr
unfolding canonical virt_addrs
new-lower addr lt = ground arith

-- A fallback heap that remembers what it was given.
abbrev pub given_ranges : Fallback
given_ranges = record {
  Heap = List (ℕ × ℕ);
  empty = [];
  init = λ start size heap. (start, size) ∷ heap;
  allocate_first_fit = λ layout heap. (none, heap);
  deallocate = λ p layout heap. heap;
}
