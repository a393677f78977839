-- ===== src/Paging/Tests.antt =====
-- The theorems on page tables at a small machine.
use native.Mathlib.Nat.{mul-le-mul_right, one-le-pow}
use zoom_os.Prelude.{
  ℕ, suc, ◌-◌, ◌/◌, ◌^◌, ◌==◌, if◌then◌else◌, Option, ℕ_discrete, subst, sym, ◌∙◌, inl, inr, ◌+◌,
  ◌*◌, ◌%◌, ◌≤◌, ◌<◌, ◌≡◌, ◌≢◌, ◌⊎◌, refl, none, some, arith,
}
use zoom_os.Memory.Tests.{frames}
use zoom_os.Allocator.Block
use zoom_os.Allocator.Block.{Fallback, new}
use zoom_os.Paging.Heap.{heap_len, heap_flags, IsHeapPage, init}
use zoom_os.Paging.Heap.Mapping.{HasFrame}
use zoom_os.Paging.Heap.Init.{heap_page_count, init-HeapMapped}
use zoom_os.Memory.{page_size}
use zoom_os.Paging.Acpi.{
  acpi_flags, PhysicalMapping, KernelAcpi, map_physical_region, unmap_physical_region,
}
use zoom_os.Paging.Acpi.Map.{IsReady, page_count}
use zoom_os.Paging.Acpi.Unmap.{unmap-map_physical_region}
use zoom_os.Paging.Acpi.Order.{map-out_of_order}
use zoom_os.Paging.Translate.{EntryFrame, Indexes, translate_addr}
use zoom_os.Paging.Translate.Tables.{Represents, frame_and_offset, translate_addr_lem}
use zoom_os.Paging.Sample.{Toy, toy, page_ranges, virt_addrs, given_ranges}

abbrev heap_at : ℕ
heap_at = 0xffff_8000_0000_0000

abbrev fresh_machine : Toy
fresh_machine = record { table = λ page. none; next = 0x100000; left = 40000 }

init-HeapMapped_example :
    (m' : Toy) × (init toy virt_addrs frames page_ranges given_ranges heap_at
        (new given_ranges)
        fresh_machine
      ≡ some (m', Block.init given_ranges (new given_ranges) heap_at heap_len))
    × ((p : ℕ) → IsHeapPage heap_at p → HasFrame toy fresh_machine m' p)
    × ((p q frame : ℕ)
        → IsHeapPage heap_at p
        → IsHeapPage heap_at q
        → m'.table p ≡ some (frame, heap_flags)
        → m'.table q ≡ some (frame, heap_flags)
        → p ≡ q)
    × ((q : ℕ) → (q < heap_at) ⊎ (heap_at + heap_len ≤ q) → m'.table q ≡ none)
    × ((q : ℕ)
        → (q < heap_at) ⊎ (heap_at + heap_len ≤ q)
        → fresh_machine.table q ≡ none
        → m'.table q ≡ none)
    × (40000 ≤ m'.left + 4 * heap_page_count)
init-HeapMapped_example =
    init-HeapMapped virt_addrs frames page_ranges heap_at (omega arith) (omega arith) (omega arith)
      toy fresh_machine given_ranges (new given_ranges) (λ p low high. refl) (omega arith)

abbrev acpi_handler : KernelAcpi Toy
acpi_handler = record {
  start_addr = heap_at;
  end_addr_exclusive = 0xffff_8000_000f_ffff;
  machine = fresh_machine;
}

two_pages-IsReady : IsReady toy 5000 acpi_handler
two_pages-IsReady = record {
  aligned = refl;
  upper = omega arith;
  fits = omega arith;
  room = omega arith;
  free = λ p low high. refl;
  enough = omega arith;
}

unmap-map_physical_region_example :
    (r : PhysicalMapping) × (b : KernelAcpi Toy) × (c : KernelAcpi Toy) × (map_physical_region
        virt_addrs frames page_ranges toy 0x7fe0014 5000 acpi_handler
      ≡ some (r, b))
    × (unmap_physical_region virt_addrs frames page_ranges toy r b ≡ some c)
    × (◌≡◌ {A = ℕ} c.start_addr heap_at)
    × (◌≡◌ {A = ℕ} c.end_addr_exclusive 0xffff_8000_000f_ffff)
    × ((q : ℕ) → c.machine.table q ≡ none)
unmap-map_physical_region_example =
    unmap-map_physical_region toy virt_addrs frames page_ranges 0x7fe0014 (omega arith) 5000
      acpi_handler two_pages-IsReady

three_pages-IsReady : IsReady toy (page_count 36 * page_size + 4000) acpi_handler
three_pages-IsReady = record {
  aligned = refl;
  upper = omega arith;
  fits = omega arith;
  room = omega arith;
  free = λ p low high. refl;
  enough = omega arith;
}

map-out_of_order_example :
    (r₁ : PhysicalMapping) × (b : KernelAcpi Toy) × (r₂ : PhysicalMapping) × (c : KernelAcpi Toy)
    × (d : KernelAcpi Toy) × (map_physical_region virt_addrs frames page_ranges toy 0xe0000 36
          acpi_handler
        ≡ some (r₁, b))
    × (map_physical_region virt_addrs frames page_ranges toy 0x7fe0000 4000 b ≡ some (r₂, c))
    × (unmap_physical_region virt_addrs frames page_ranges toy r₁ c ≡ some d)
    × (d.start_addr + 8 < d.end_addr_exclusive)
    × (d.machine.table d.start_addr
        ≡ some (frames.containing_address page_size 0x7fe0000, acpi_flags))
    × (map_physical_region virt_addrs frames page_ranges toy 0x7fe1000 8 d ≡ none)
map-out_of_order_example =
    map-out_of_order toy virt_addrs frames page_ranges 0xe0000 0x7fe0000 0x7fe1000 (omega arith)
      (omega arith) (omega arith) 36 4000 8 acpi_handler three_pages-IsReady refl (omega arith)

-- Four tables behind each other, of which only the first entries are there.
read_first : ℕ → ℕ → EntryFrame
read_first virt i =
    if i == 0 then EntryFrame.ok (virt - heap_at + 0x1000) else EntryFrame.frame_not_present

abbrev first_page : ℕ → Option ℕ
first_page n = if n == 0 then some 0x5000 else none

abbrev Walked : ℕ → ℕ → (ℕ → Option ℕ) → Type 0
Walked levels frame pages = Represents virt_addrs read_first heap_at levels frame pages

Walked-first :
    (levels frame : ℕ)
    → frame < 0x100000
    → Walked levels (frame + 0x1000) first_page
    → Walked (suc levels) frame first_page
unfolding read_first
Walked-first levels frame small below = (
  heap_at + frame,
  virt_addrs.plus-new heap_at frame (omega arith)
      ∙ virt_addrs.new-upper (heap_at + frame) (omega arith) (omega arith),
  λ i lt. elim (ℕ_discrete i 0) [
    | yes first ↦ inr (
      frame + 0x1000,
      ground (arith, first),
      subst (Walked levels (frame + 0x1000)) (sym (same i first)) below,
    )
    | no other ↦ inl (ground (arith, other), λ k small_k. absent i k other)
  ],
)
  where
    same :
        (i : ℕ) → i ≡ 0 → ◌≡◌ {A = ℕ → Option ℕ} (λ k. first_page (i * 512 ^ levels + k)) first_page
    same i e t k = first_page (let at : i * 512 ^ levels + k ≡ k = rw e (omega arith) in at t)

    absent : (i k : ℕ) → i ≢ 0 → first_page (i * 512 ^ levels + k) ≡ none
    absent i k other =
        let whole : 512 ^ levels ≤ i * 512 ^ levels =
          omega (arith, mul-le-mul_right (512 ^ levels) (let pos : 1 ≤ i = omega arith in pos)) in
        ground (arith, whole, one-le-pow levels 512 (let pos : 0 < 512 = omega arith in pos))

abbrev paths : Indexes
paths = record {
  index = λ level addr. addr / 2 ^ (3 + 9 * level) % 512;
  page_offset = λ addr. addr % 4096;
  index_lem = λ level addr. refl;
  page_offset_lem = λ addr. refl;
}

four_tables : Walked 4 0x1000 first_page
four_tables = Walked-first 3 0x1000 (omega arith) (
    Walked-first 2 0x2000 (omega arith)
      (Walked-first 1 0x3000 (omega arith) (Walked-first 0 0x4000 (omega arith) refl)))

only_page : (n frame : ℕ) → first_page n ≡ some frame → frame + 4096 ≤ 2 ^ 52
only_page n frame e = ground (arith, e)

translate_addr_lem_example :
    translate_addr virt_addrs read_first paths 0x1000 0x123 heap_at
    ≡ some (frame_and_offset 0x123 (some 0x5000))
translate_addr_lem_example =
    translate_addr_lem virt_addrs read_first heap_at paths 0x1000 0x123 first_page four_tables
      only_page
