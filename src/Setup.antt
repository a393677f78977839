-- ===== src/Setup.antt =====
-- The plan of the kernel's addresses in `init` of kernel/src/lib.rs.
pub mod Regions
pub mod Compose
mod Tests
use zoom_os.Prelude.{ℕ, ◌*◌, ◌≡◌, Option, some, ◌>>=◌}
use zoom_os.Memory.{page_size}
use zoom_os.Paging.{Addresses, Mapper}
use zoom_os.Paging.Heap.{heap_len}

-- `KERNEL_ACPI_LEN` and `KERNEL_APIC_LEN`
abbrev pub acpi_len : ℕ
acpi_len = 1024 * 1024

abbrev pub apic_len : ℕ
apic_len = 4096

-- `KERNEL_CODE_ADDR` and the three statics beside it
pub record Plan : Type 0 where
  pub code_addr : ℕ
  pub heap_addr : ℕ
  pub acpi_addr : ℕ
  pub apic_addr : ℕ

-- Between the set-up of the heap and the parser's first mapping, `memory::init` puts its own allocator
-- behind the mapper, in place of the first one: the page tables stay as they are.
pub record Handover (boot kernel : Mapper) : Type 0 where
  pub hand_over : boot.Machine → kernel.Machine
  pub tables : (m : boot.Machine) (q : ℕ) → kernel.frame_of (hand_over m) q ≡ boot.frame_of m q
  pub free : (m : boot.Machine) (q : ℕ) → boot.IsFree m q → kernel.IsFree (hand_over m) q

module _ (addresses : Addresses) where
  -- `(addr + len).align_up(Page::<Size4KiB>::SIZE)`
  unfoldable pub region_after : ℕ → ℕ → Option ℕ
  region_after addr len = do end ← addresses.plus addr len; addresses.align_up end page_size

  -- `none` is a panic on an address that is not canonical.
  unfoldable pub plan : ℕ → ℕ → Option Plan
  plan kernel_image_offset kernel_len = do
    code ← addresses.new kernel_image_offset
    heap ← region_after code kernel_len
    acpi ← region_after heap heap_len
    apic ← region_after acpi acpi_len
    some (record { code_addr = code; heap_addr = heap; acpi_addr = acpi; apic_addr = apic })
