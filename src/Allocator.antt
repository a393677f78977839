-- ===== src/Allocator.antt =====
-- kernel/src/allocator.rs: what the two heap allocators share.
pub mod Align
pub mod LinkedList
pub mod Block
use Prim.Native.Nat.{bit_and}
use zoom_os.Prelude.{ℕ, ◌-◌}
use zoom_os.Word.{wrapping_add, usize_mod, bit_not}

-- `core::alloc::Layout`
pub record Layout : Type 0 where
  pub size : ℕ
  pub align : ℕ

-- `(addr + align - 1) & !(align - 1)`. The difference is taken modulo 2 ^ 64, as the sum is.
unfoldable pub align_up : ℕ → ℕ → ℕ
align_up addr align = bit_and (wrapping_add addr (align - 1)) (bit_not (align - 1))
