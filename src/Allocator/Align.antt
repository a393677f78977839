-- ===== src/Allocator/Align.antt =====
-- `align_up` of kernel/src/allocator.rs rounds up to a multiple of a power of two.
use Prim.Native.Nat.{◌∣◌}
use native.Mathlib.Nat.{
  zero-mod, mul-mod_left, one-le-pow, pow-suc, pow-le-pow_right, lt-div-mul-add, div-mul-le_self,
  mod-eq_of_lt, mod-mod_of_dvd, dvd-mul_left,
}
use zoom_os.Prelude.{
  ℕ, suc, ◌+◌, ◌-◌, ◌*◌, ◌/◌, ◌%◌, ◌^◌, ◌≤◌, ◌<◌, ◌≡◌, ap, ◌∙◌, sym, subst, arith, dec_lt,
}
use zoom_os.Word.{usize_mod, bit_and-not_low, pow-split}
use zoom_os.Allocator.{align_up}

module _ (k addr : ℕ) (small : k ≤ 63) (fits : addr + 2 ^ k ≤ usize_mod) where
  pub align_up-multiple : align_up addr (2 ^ k) ≡ (addr + (2 ^ k - 1)) / 2 ^ k * 2 ^ k
  unfolding align_up
  align_up-multiple =
      rw (mod-eq_of_lt no_wrap) (bit_and-not_low k (addr + (2 ^ k - 1)) (omega arith) no_wrap)
    where
      no_wrap : addr + (2 ^ k - 1) < usize_mod
      no_wrap = omega (arith, one-le-pow k 2 (omega arith))

  -- The result is a multiple of the alignment, and the first one that is not below the address.
  pub align_up_lem :
      (align_up addr (2 ^ k) % 2 ^ k ≡ 0)
      × (addr ≤ align_up addr (2 ^ k))
      × (align_up addr (2 ^ k) < addr + 2 ^ k)
  align_up_lem = rw align_up-multiple (mul-mod_left _ (2 ^ k), low, high)
    where
      n : ℕ
      n = addr + (2 ^ k - 1)

      pos : 1 ≤ 2 ^ k
      pos = one-le-pow k 2 (omega arith)

      low : addr ≤ n / 2 ^ k * 2 ^ k
      low = omega (arith, pos, lt-div-mul-add {a = n} pos)

      high : n / 2 ^ k * 2 ^ k < addr + 2 ^ k
      high = omega (arith, pos, div-mul-le_self n (2 ^ k))

-- A multiple of a power of two is one of each smaller power.
pub mod-pow_of_le : (j k x : ℕ) → j ≤ k → x % 2 ^ k ≡ 0 → x % 2 ^ j ≡ 0
mod-pow_of_le j k x h e =
    sym (mod-mod_of_dvd (2 ^ j) x divides) ∙ ap (λ y. y % 2 ^ j) e ∙ zero-mod (2 ^ j)
  where
    divides : 2 ^ j ∣ 2 ^ k
    divides =
        subst (λ m. 2 ^ j ∣ m) (pow-split j (k - j) k (omega arith))
          (dvd-mul_left (2 ^ j) (2 ^ (k - j)))

pub mod-eight : (k x : ℕ) → 3 ≤ k → x % 2 ^ k ≡ 0 → x % 8 ≡ 0
mod-eight k x h e = mod-pow_of_le 3 k x h e

-- Powers of two are in the order of their exponents.
pub pow_reflects : (j k : ℕ) → 2 ^ j ≤ 2 ^ k → j ≤ k
pow_reflects j k h = elim (dec_lt k j) [
  | yes less ↦ absurd (
      omega (
        arith,
        pow-suc 2 k,
        one-le-pow k 2 (omega arith),
        pow-le-pow_right {n = 2} (omega arith) {i = suc k} {j = j} less,
      ))
  | no fine ↦ omega arith
]
