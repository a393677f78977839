-- ===== src/Interrupts.antt =====
-- The numbers of the interrupts in kernel/src/interrupts.rs. The controllers are the child's.
pub mod IoApic
pub mod Handlers
pub mod Choice
use zoom_os.Prelude.{ℕ, ◌+◌}

-- `INTERRUPT_START`
abbrev pub interrupt_start : ℕ
interrupt_start = 32

pub data InterruptIndex : Type 0 where
  timer keyboard clock lapic_err spurious : InterruptIndex

-- `InterruptIndex as u8`
abbrev pub index_of : InterruptIndex → ℕ
index_of timer = interrupt_start
index_of keyboard = interrupt_start + 1
index_of clock = interrupt_start + 8
index_of lapic_err = interrupt_start + 17
index_of spurious = 0xff
