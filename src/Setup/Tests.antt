-- ===== src/Setup/Tests.antt =====
-- A plan with its heap and its first ACPI region at a concrete image.
use zoom_os.Prelude.{ℕ, ◌+◌, ◌%◌, ◌≤◌, ◌<◌, ◌≡◌, refl, none, some, arith}
use zoom_os.Memory.{page_size}
use zoom_os.Memory.Tests.{frames}
use zoom_os.Allocator.Block
use zoom_os.Paging.Heap.{heap_len, heap_flags, IsHeapPage, init}
use zoom_os.Paging.Acpi.{PhysicalMapping, KernelAcpi, new, acpi_flags, map_physical_region}
use zoom_os.Paging.Sample.{Toy, toy, page_ranges, virt_addrs, given_ranges}
use zoom_os.Setup.{Handover, Plan, acpi_len, plan}
use zoom_os.Setup.Regions.{IsPlan}
use zoom_os.Setup.Compose.{plan-init-map_physical_region}

abbrev image : ℕ
image = 0xffff_8000_0000_0000

abbrev boot_machine : Toy
boot_machine = record { table = λ page. none; next = 0x100000; left = 40000 }

-- The second allocator starts at the frames behind 4 GiB.
abbrev second_allocator : Toy → Toy
second_allocator m = record m { next = 0x1_0000_0000; left = 100 }

abbrev toy_handover : Handover toy toy
toy_handover = record {
  hand_over = second_allocator;
  tables = λ m q. refl;
  free = λ m q free. free;
}

plan-init-map_physical_region_example :
    (p : Plan) × (m₁ : Toy) × (r : PhysicalMapping) × (a : KernelAcpi Toy) × (plan virt_addrs image
        0x123456
      ≡ some p)
    × (◌≡◌ {A = ℕ} p.code_addr image)
    × IsPlan 0x123456 p
    × (init toy virt_addrs frames page_ranges given_ranges p.heap_addr
          (Block.new given_ranges)
          boot_machine
        ≡ some (m₁, Block.init given_ranges (Block.new given_ranges) p.heap_addr heap_len))
    × (map_physical_region virt_addrs frames page_ranges toy 0x7fe0014 5000
          (new p.acpi_addr acpi_len (second_allocator m₁))
        ≡ some (r, a))
    × (r.virtual_start ≡ p.acpi_addr)
    × ((q : ℕ)
        → IsHeapPage p.heap_addr q
        → (frame : ℕ) × (a.machine.table q ≡ some (frame, heap_flags)) × ¬ (frame < 0x100000))
    × ((q : ℕ)
        → q % page_size ≡ 0
        → p.acpi_addr ≤ q
        → q ≤ p.acpi_addr + 5000
        → a.machine.table q ≡ some (frames.containing_address page_size 0x7fe0014, acpi_flags))
plan-init-map_physical_region_example =
    plan-init-map_physical_region virt_addrs frames page_ranges toy toy toy_handover 0x7fe0014 5000
      image 0x123456 boot_machine given_ranges (Block.new given_ranges) (omega arith) (omega arith)
      (λ q above below. refl) (omega arith) (omega arith) (omega arith) (λ m₁ spent. omega arith)
