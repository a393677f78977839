-- ===== src/Memory.antt =====
-- kernel/src/memory.rs: the two physical frame allocators, and what they share.
pub mod Boot
pub mod Smart
pub mod Tests
use zoom_os.Prelude.{ℕ, ◌+◌, ◌/◌, ◌*◌, ◌%◌, ◌≤◌, ◌<◌, ◌≡◌, Bool, List, [], ◌∷◌}

-- `core::ops::Range<u64>`
pub record Range : Type 0 where
  pub start : ℕ
  pub end : ℕ

-- `bootloader_api::info::MemoryRegion`; `usable` is `kind == MemoryRegionKind::Usable`.
pub record MemoryRegion : Type 0 where
  pub start : ℕ
  pub end : ℕ
  pub usable : Bool

-- `region.start..region.end`
abbrev pub range_of : MemoryRegion → Range
range_of r = record { start = r.start; end = r.end }

-- `Size4KiB::SIZE`
abbrev pub page_size : ℕ
page_size = 4096

-- `PhysFrame::containing_address` of the x86_64 package, by the frame size: the start of the frame.
pub record Frames : Type 0 where
  pub containing_address : ℕ → ℕ → ℕ
  pub contains :
      (size addr : ℕ)
      → 0 < size
      → (containing_address size addr ≤ addr) × (addr < containing_address size addr + size)
  pub multiple : (size addr : ℕ) → containing_address size addr % size ≡ 0
