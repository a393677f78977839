-- ===== src/Paging.antt =====
-- What the kernel takes from its paging library: addresses, ranges of pages, and page tables with
-- the frames that they are made of. Its clients are the children.
pub mod Pages
pub mod Heap
pub mod Acpi
pub mod Translate
pub mod Sample
mod Tests
use zoom_os.Prelude.{
  ℕ, ◌+◌, ◌-◌, ◌%◌, ◌^◌, ◌≤◌, ◌<◌, ◌≡◌, ◌≢◌, Option, none, some, List, [], ◌∷◌, ◌>>=◌,
}
use zoom_os.Word.{usize_mod}
use zoom_os.Memory.{page_size}

-- `x86_64::VirtAddr`: `new`, `+`, `-` and `align_up`, which panic (`none`) at an address that is not
-- canonical, and `physical` is `PhysAddr::new`. The laws are for the upper half, to which the loader's configuration keeps the kernel.
pub record Addresses : Type 0 where
  pub new : ℕ → Option ℕ
  pub plus : ℕ → ℕ → Option ℕ
  pub minus : ℕ → ℕ → Option ℕ
  pub align_up : ℕ → ℕ → Option ℕ
  pub physical : ℕ → Option ℕ
  pub new-upper : (addr : ℕ) → usize_mod - 2 ^ 47 ≤ addr → addr < usize_mod → new addr ≡ some addr
  pub physical-some : (addr : ℕ) → addr < 2 ^ 52 → physical addr ≡ some addr
  pub plus-new : (addr n : ℕ) → addr + n < usize_mod → plus addr n ≡ new (addr + n)
  pub minus-new : (addr n : ℕ) → n ≤ addr → minus addr n ≡ new (addr - n)
  pub align_up-new :
      (addr power up : ℕ)
      → addr ≤ up
      → up < addr + 2 ^ power
      → up % 2 ^ power ≡ 0
      → up < usize_mod
      → align_up addr (2 ^ power) ≡ new up

-- `PageRangeInclusive` as a list of the starts of its pages.
pub record PageRanges : Type 0 where
  pub range : ℕ → ℕ → List ℕ
  pub range-next :
      (start end : ℕ) → start ≤ end → range start end ≡ start ∷ range (start + page_size) end
  pub range-end : (start end : ℕ) → end < start → range start end ≡ []

-- `PageTableFlags`; a list of them is their union.
pub data Flag : Type 0 where
  present writable no_cache write_through no_execute : Flag

-- One frame handed out: it was not before, and the tables are as they were.
pub record Given {M : Type 0} (left : M → ℕ) (IsTaken IsFree : M → ℕ → Type 0)
    (frame_of : M → ℕ → Option (ℕ × List Flag)) (frame : ℕ) (m m' : M) : Type 0 where
  pub counted : left m ≡ left m' + 1
  pub unused : ¬ IsTaken m frame
  pub used : IsTaken m' frame
  pub taken : (f : ℕ) → IsTaken m f → IsTaken m' f
  pub free : (q : ℕ) → IsFree m q → IsFree m' q
  pub tables : (q : ℕ) → frame_of m' q ≡ frame_of m q

-- One page mapped to a frame, the other pages as they were. Three frames at most go into tables.
pub record Mapped {M : Type 0} (left : M → ℕ) (IsTaken IsFree : M → ℕ → Type 0)
    (frame_of : M → ℕ → Option (ℕ × List Flag)) (page frame : ℕ) (flags : List Flag) (m m' : M)
    : Type 0 where
  pub counted : left m ≤ left m' + 3
  pub taken : (f : ℕ) → IsTaken m f → IsTaken m' f
  pub free : (q : ℕ) → q ≢ page → IsFree m q → IsFree m' q
  pub here : frame_of m' page ≡ some (frame, flags)
  pub elsewhere : (q : ℕ) → q ≢ page → frame_of m' q ≡ frame_of m q

-- One page unmapped.
pub record Unmapped {M : Type 0} (IsFree : M → ℕ → Type 0)
    (frame_of : M → ℕ → Option (ℕ × List Flag)) (page : ℕ) (m m' : M) : Type 0 where
  pub gone : frame_of m' page ≡ none
  pub kept : (q : ℕ) → q ≢ page → frame_of m' q ≡ frame_of m q

-- `Mapper` with the frame allocator that it draws on: a page table entry has a frame and flags. A
-- page is free where it is not mapped and no huge page stands over it.
pub record Mapper : Type 1 where
  pub Machine : Type 0
  pub allocate_frame : Machine → Option (ℕ × Machine)
  pub map_to : ℕ → ℕ → List Flag → Machine → Option Machine
  pub unmap : ℕ → Machine → Option (ℕ × Machine)
  pub frame_of : Machine → ℕ → Option (ℕ × List Flag)
  pub left : Machine → ℕ
  pub IsTaken : Machine → ℕ → Type 0
  pub IsFree : Machine → ℕ → Type 0
  pub allocate_frame-Given :
      (m : Machine)
      → 1 ≤ left m
      → (frame : ℕ) × (m' : Machine) × (allocate_frame m ≡ some (frame, m'))
        × Given left IsTaken IsFree frame_of frame m m'
  pub map_to-Mapped :
      (page frame : ℕ) (flags : List Flag) (m : Machine)
      → IsFree m page
      → 3 ≤ left m
      → (m' : Machine) × (map_to page frame flags m ≡ some m')
        × Mapped left IsTaken IsFree frame_of page frame flags m m'
  pub map_to-already :
      (page frame : ℕ) (flags : List Flag) (m : Machine) (entry : ℕ × List Flag)
      → frame_of m page ≡ some entry
      → map_to page frame flags m ≡ none
  pub free_lem : (m : Machine) (page : ℕ) → IsFree m page → frame_of m page ≡ none
  pub unmap-Unmapped :
      (page : ℕ) (m : Machine) (frame : ℕ) (flags : List Flag)
      → frame_of m page ≡ some (frame, flags)
      → (m' : Machine) × (unmap page m ≡ some (frame, m')) × Unmapped IsFree frame_of page m m'

-- `for page in range`, with a body that may panic.
unfoldable pub for_each {ℓ} : {S : Type ℓ} → (ℕ → S → Option S) → List ℕ → S → Option S
for_each body [] s = some s
for_each body (page ∷ pages) s = body page s >>= for_each body pages
