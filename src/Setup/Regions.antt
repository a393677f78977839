-- ===== src/Setup/Regions.antt =====
-- The regions that `init` of kernel/src/lib.rs plans do not meet.
use zoom_os.Prelude.{ℕ, ◌+◌, ◌-◌, ◌*◌, ◌/◌, ◌%◌, ◌^◌, ◌≤◌, ◌<◌, ◌≡◌, ◌∙◌, refl, some, arith}
use zoom_os.Word.{usize_mod}
use zoom_os.Memory.{page_size}
use zoom_os.Paging.{Addresses}
use zoom_os.Paging.Heap.{heap_len}
use zoom_os.Setup.{Plan, acpi_len, apic_len, region_after, plan}

-- The addresses of the plan, all pages' starts, each region above the end of the one before.
pub record IsPlan (code_len : ℕ) (p : Plan) : Type 0 where
  pub code_heap : p.code_addr + code_len ≤ p.heap_addr
  pub tight : p.heap_addr < p.code_addr + code_len + page_size
  pub heap_aligned : p.heap_addr % page_size ≡ 0
  pub heap_acpi : p.acpi_addr ≡ p.heap_addr + heap_len
  pub acpi_apic : p.apic_addr ≡ p.acpi_addr + acpi_len
  pub apic_end : p.apic_addr + apic_len < usize_mod

module _ (addresses : Addresses) where
  region_after_lem :
      (addr len up : ℕ)
      → usize_mod - 2 ^ 47 ≤ addr
      → addr + len ≤ up
      → up < addr + len + page_size
      → up % page_size ≡ 0
      → up < usize_mod
      → region_after addresses addr len ≡ some up
  unfolding region_after
  region_after_lem addr len up upper le lt aligned room =
      rw
        (
          addresses.plus-new addr len (omega arith),
          addresses.new-upper (addr + len) (omega arith) (omega arith),
        )
        (addresses.align_up-new (addr + len) 12 up le lt aligned room
          ∙ addresses.new-upper up (omega arith) room)

  -- For a kernel in the upper half that leaves room, no address is refused: heap, ACPI and APIC
  -- regions start at pages, follow the code and each other with less than a page unused, and none
  -- reaches into the next one.
  pub plan-IsPlan :
      (kernel_image_offset kernel_len : ℕ)
      → usize_mod - 2 ^ 47 ≤ kernel_image_offset
      → kernel_image_offset + kernel_len + heap_len + acpi_len + apic_len + page_size ≤ usize_mod
      → (p : Plan) × (plan addresses kernel_image_offset kernel_len ≡ some p)
        × (p.code_addr ≡ kernel_image_offset)
        × IsPlan kernel_len p
  unfolding plan
  plan-IsPlan offset len upper room = (
    record {
      code_addr = offset;
      heap_addr = heap;
      acpi_addr = heap + heap_len;
      apic_addr = heap + heap_len + acpi_len;
    },
    rw
        (
          addresses.new-upper offset upper (omega arith),
          region_after_lem offset len heap upper (omega arith) (omega arith) (omega arith)
              (omega arith),
          region_after_lem heap heap_len (heap + heap_len) (omega arith) (omega arith) (omega arith)
              (omega arith) (omega arith),
          region_after_lem (heap + heap_len) acpi_len (heap + heap_len + acpi_len) (omega arith)
              (omega arith) (omega arith) (omega arith) (omega arith),
        )
        refl,
    refl,
    record {
      code_heap = omega arith;
      tight = omega arith;
      heap_aligned = omega arith;
      heap_acpi = refl;
      acpi_apic = refl;
      apic_end = omega arith;
    },
  )
    where
      heap : ℕ
      heap = (offset + len + (page_size - 1)) / page_size * page_size
