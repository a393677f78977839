-- ===== src/Word.antt =====
-- Machine words of the x86_64 target: usize and u64 arithmetic, and the bit masks of the kernel.
use Prim.Native.Nat.{bit_and, bit_or, digits, bit_and-bitwise, bit_or-bitwise}
use native.Mathlib.Nat.{
  pow-suc, mul-one, mul_assoc, mul_comm, div-one, div-div-eq-div-mul, div-lt_iff_lt-mul, one-le-pow,
}
use zoom_os.Prelude.{
  ℕ, zero, suc, ◌+◌, ◌-◌, ◌*◌, ◌/◌, ◌%◌, ◌^◌, ◌≤◌, ◌<◌, min, ◌≡◌, refl, ap, ◌∙◌, sym, ◌≡⟨◌⟩◌, ◌∎,
  Option, none, some, arith, ltb, if◌then◌else◌,
}

abbrev pub usize_mod : ℕ
usize_mod = 2 ^ 64

-- `a + b` as the release profile computes it.
abbrev pub wrapping_add : ℕ → ℕ → ℕ
wrapping_add a b = (a + b) % usize_mod

-- `a - b` as the release profile computes it.
abbrev pub wrapping_sub : ℕ → ℕ → ℕ
wrapping_sub a b = (a + (usize_mod - b)) % usize_mod

-- `usize::checked_add`
abbrev pub checked_add : ℕ → ℕ → Option ℕ
checked_add a b = if ltb (a + b) usize_mod then some (a + b) else none

-- `!x` on a usize
abbrev pub bit_not : ℕ → ℕ
bit_not x = usize_mod - 1 - x

-- The digit recursion does not depend on its count, once that is large enough.
digits_fuel :
    (z : ℕ → ℕ) (f : ℕ → ℕ → ℕ) (a b n m : ℕ) → a ≤ n → a ≤ m → digits z f n a b ≡ digits z f m a b
digits_fuel z f a b zero zero p q = refl
digits_fuel z f zero b zero (suc m) p q = refl
digits_fuel z f zero b (suc n) zero p q = refl
digits_fuel z f zero b (suc n) (suc m) p q = refl
digits_fuel z f (suc a) b zero m p q = absurd (omega arith)
digits_fuel z f (suc a) b (suc n) zero p q = absurd (omega arith)
digits_fuel z f (suc a) b (suc n) (suc m) p q =
    ap (λ d. d * 2 + f (suc a % 2) (b % 2))
      (digits_fuel z f (suc a / 2) (b / 2) n m (omega arith) (omega arith))

bit_and-zero_left : (b : ℕ) → bit_and 0 b ≡ 0
bit_and-zero_left b = bit_and-bitwise 0 b

bit_or-zero_left : (b : ℕ) → bit_or 0 b ≡ b
bit_or-zero_left b = bit_or-bitwise 0 b

-- `&` and `|`, a digit at a time.
bit_and-half : (a b : ℕ) → bit_and a b ≡ bit_and (a / 2) (b / 2) * 2 + min (a % 2) (b % 2)
bit_and-half zero b = omega (arith, bit_and-zero_left b, bit_and-zero_left (b / 2))
bit_and-half (suc a) b =
    bit_and-bitwise (suc a) b
    ∙ ap (λ d. d * 2 + min (suc a % 2) (b % 2))
        (digits_fuel (λ _. zero) min (suc a / 2) (b / 2) a (suc a / 2) (omega arith) (omega arith)
          ∙ sym (bit_and-bitwise (suc a / 2) (b / 2)))

-- A mask of `k` ones keeps the `k` low digits: on a smaller number it changes nothing.
bit_and-ones : (k m x : ℕ) → m + 1 ≡ 2 ^ k → x ≤ m → bit_and x m ≡ x
bit_and-ones zero m x e h = let x0 : x ≡ 0 = omega arith in rw x0 (bit_and-zero_left m)
bit_and-ones (suc k) m x e h = omega (
  arith,
  bit_and-half x m,
  pow-suc 2 k,
  bit_and-ones k (m / 2) (x / 2) (omega (arith, pow-suc 2 k)) (omega arith),
)

-- A mask whose `k` low digits are 0 acts on the upper digits.
bit_and-shifted : (k m x : ℕ) → bit_and x (m * 2 ^ k) ≡ bit_and (x / 2 ^ k) m * 2 ^ k
bit_and-shifted zero m x = rw (mul-one m, div-one x, mul-one)
bit_and-shifted (suc k) m x =
    bit_and x (m * 2 ^ suc k)
    ≡⟨ ap (bit_and x) (doubled 2 (λ p. m * p)) ⟩ bit_and x (m * (2 ^ k * 2))
    ≡⟨ omega (arith, bit_and-half x (m * (2 ^ k * 2)), ap (bit_and (x / 2)) halved) ⟩
      bit_and (x / 2) (m * 2 ^ k) * 2
    ≡⟨ ap (λ d. d * 2) (bit_and-shifted k m (x / 2)) ⟩ bit_and (x / 2 / 2 ^ k) m * 2 ^ k * 2
    ≡⟨ (rw (div-div-eq-div-mul x 2 (2 ^ k), mul_assoc, pow-suc 2 k, mul_comm 2 (2 ^ k))) ⟩
      bit_and (x / 2 ^ suc k) m * 2 ^ suc k ∎
  where
    doubled : (b : ℕ) (f : ℕ → ℕ) → f (b ^ suc k) ≡ f (b ^ k * b)
    doubled b f = ap f (pow-suc b k)

    halved : m * (2 ^ k * 2) / 2 ≡ m * 2 ^ k
    halved = omega arith

pub pow-split : (k j n : ℕ) → j + k ≡ n → 2 ^ j * 2 ^ k ≡ 2 ^ n
pow-split zero j n e = let e' : j ≡ n = omega arith in rw (e', mul-one)
pow-split (suc k) j zero e = absurd (omega arith)
pow-split (suc k) j (suc n) e =
    omega
      (arith, pow-suc 2 n, ap (λ (p : ℕ). 2 ^ j * p) (pow-suc 2 k), pow-split k j n (omega arith))

mask_value : (q p c : ℕ) → p ≡ q + 1 → 1 ≤ c → p * c ≡ usize_mod → bit_not (c - 1) ≡ q * c
mask_value q p c hq hc e = omega (arith, ap (λ (n : ℕ). n * c) hq)

-- `x & !(2 ^ k - 1)` clears the `k` low digits.
pub bit_and-not_low :
    (k x : ℕ) → k ≤ 64 → x < usize_mod → bit_and x (bit_not (2 ^ k - 1)) ≡ x / 2 ^ k * 2 ^ k
bit_and-not_low k x hk hx =
    bit_and x (bit_not (2 ^ k - 1))
    ≡⟨ ap (bit_and x) mask ⟩ bit_and x ((2 ^ (64 - k) - 1) * 2 ^ k)
    ≡⟨ bit_and-shifted k (2 ^ (64 - k) - 1) x ⟩ bit_and (x / 2 ^ k) (2 ^ (64 - k) - 1) * 2 ^ k
    ≡⟨ ap (λ d. d * 2 ^ k)
        (bit_and-ones (64 - k) _ (x / 2 ^ k) (omega (arith, one-le-pow (64 - k) 2 (omega arith)))
          high) ⟩
      x / 2 ^ k * 2 ^ k ∎
  where
    split : 2 ^ (64 - k) * 2 ^ k ≡ usize_mod
    split = pow-split k (64 - k) 64 (omega arith)

    mask : bit_not (2 ^ k - 1) ≡ (2 ^ (64 - k) - 1) * 2 ^ k
    mask =
        mask_value (2 ^ (64 - k) - 1) (2 ^ (64 - k)) (2 ^ k)
          (omega (arith, one-le-pow (64 - k) 2 (omega arith))) (one-le-pow k 2 (omega arith)) split

    quotient_small : x / 2 ^ k < 2 ^ (64 - k)
    quotient_small = (div-lt_iff_lt-mul (one-le-pow k 2 (omega arith))).1 (rw split hx)

    high : x / 2 ^ k ≤ 2 ^ (64 - k) - 1
    high = omega (arith, quotient_small)

no_bits : (bound x : ℕ) → x ≤ bound → bit_and x 0 ≡ 0
no_bits bound zero le = bit_and-zero_left 0
no_bits zero (suc x) le = absurd (omega arith)
no_bits (suc bound) (suc x) le =
    let halves = no_bits bound (suc x / 2) (omega arith) in
    omega (arith, halves, bit_and-half (suc x) 0)

-- One more bit of a mask of low bits.
low_bit : (x : ℕ) → bit_and x 1 ≡ x % 2
low_bit x =
    let none_above = no_bits (x / 2) (x / 2) (omega arith) in
    omega (arith, none_above, bit_and-half x 1)

two_low_bits : (x : ℕ) → bit_and x 3 ≡ x % 4
two_low_bits x = let above = low_bit (x / 2) in omega (arith, above, bit_and-half x 3)

three_low_bits : (x : ℕ) → bit_and x 7 ≡ x % 8
three_low_bits x = let above = two_low_bits (x / 2) in omega (arith, above, bit_and-half x 7)

-- The mask of the four low bits takes the remainder by 16.
pub bit_and-low : (x : ℕ) → bit_and x 15 ≡ x % 16
bit_and-low x = let above = three_low_bits (x / 2) in omega (arith, above, bit_and-half x 15)
