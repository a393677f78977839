-- ===== src/Memory/Boot/Usable.antt =====
-- Where the frames of `BootInfoFrameAllocator` of kernel/src/memory.rs lie.
use zoom_os.Prelude.{
  ℕ, zero, suc, ◌+◌, ◌*◌, ◌%◌, ◌≤◌, ◌≡◌, ◌⊎◌, inl, inr, true, List, [], ◌∷◌, arith, All, All-append,
  All-imp, All-if,
}
use zoom_os.Memory.{MemoryRegion, range_of, page_size}
use zoom_os.Memory.Boot.{init}
use zoom_os.Memory.Boot.Sequence.{pages, range_pages, usable_pages, pages_left}

-- The frame is a page of a usable region of the list.
abbrev pub IsUsable : List MemoryRegion → ℕ → Type 0
IsUsable [] frame = ⊥
IsUsable (r ∷ regions) frame =
    ((r.usable ≡ true) × (r.start ≤ frame) × (frame + page_size ≤ r.end)) ⊎ IsUsable regions frame

pages-inside :
    (n start : ℕ)
    → start % page_size ≡ 0
    → All (λ f. (start ≤ f) × (f + page_size ≤ start + n * page_size)) (pages n start)
unfolding pages
pages-inside zero start h = tt
pages-inside (suc n) start h = (
  omega arith,
  All-imp (λ f b. omega (arith, b)) (pages n (start + page_size))
      (pages-inside n (start + page_size) (omega arith)),
)

usable_pages-IsUsable :
    (regions : List MemoryRegion)
    → All (λ r. r.start % page_size ≡ 0) regions
    → All (IsUsable regions) (usable_pages regions)
unfolding usable_pages
usable_pages-IsUsable [] h = tt
usable_pages-IsUsable (r ∷ regions) h =
    let later =
      All-imp {Q = IsUsable (r ∷ regions)} (λ f b. inr b) _ (usable_pages-IsUsable regions h.1) in
    All-if (IsUsable (r ∷ regions)) _ _ r.usable
      (λ usable.
        All-append (IsUsable (r ∷ regions)) (range_pages (range_of r)) _
          (All-imp (λ f b. inl (usable, b.0, omega (arith, b))) _ (pages-inside _ r.start h.0))
          later)
      later

-- Of a memory map with aligned regions, each frame handed out lies in a usable region.
pub init-IsUsable :
    (memory_map : List MemoryRegion)
    → All (λ r. r.start % page_size ≡ 0) memory_map
    → All (IsUsable memory_map) (pages_left (init memory_map))
unfolding init
init-IsUsable memory_map h = usable_pages-IsUsable memory_map h
