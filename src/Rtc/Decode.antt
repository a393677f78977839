-- ===== src/Rtc/Decode.antt =====
-- The two formats of the registers that kernel/src/rtc.rs reads.
use Prim.Native.Nat.{bit_and}
use zoom_os.Prelude.{ℕ, ==_iff, ◌+◌, ◌*◌, ◌/◌, ◌%◌, ◌<◌, ◌≡◌, refl, arith, ◌==◌, true, false}
use zoom_os.Word.{bit_and-low}
use zoom_os.Prelude.{agree, agree-below}
use zoom_os.Rtc.{RtcDateTime, from_bcd, hours_from_bcd, convert}

-- A number below 100 in two decimal digits of four bits.
abbrev pub to_bcd : ℕ → ℕ
to_bcd n = n / 10 * 16 + n % 10

abbrev pub in_bcd : RtcDateTime → RtcDateTime
in_bcd d = record {
  seconds = to_bcd d.seconds;
  minutes = to_bcd d.minutes;
  hours = to_bcd d.hours;
  weekday = d.weekday;
  day = to_bcd d.day;
  month = to_bcd d.month;
  year = to_bcd d.year;
  century = to_bcd d.century;
}

abbrev pub IsInRange : RtcDateTime → Type 0
IsInRange d =
    (d.seconds < 100)
    × (d.minutes < 100)
    × (d.hours < 24)
    × (d.day < 100)
    × (d.month < 100)
    × (d.year < 100)
    × (d.century < 100)

from-to_bcd : (n : ℕ) → n < 100 → from_bcd (to_bcd n) ≡ n
unfolding from_bcd
from-to_bcd n lt = omega (arith, bit_and-low (to_bcd n))

one_day_agrees : agree (λ hour. hours_from_bcd (to_bcd hour) == hour) 24 ≡ true
unfolding agree hours_from_bcd
one_day_agrees = refl

hours_from-to_bcd : (n : ℕ) → n < 24 → hours_from_bcd (to_bcd n) ≡ n
hours_from-to_bcd n lt =
    (==_iff (hours_from_bcd (to_bcd n)) n).0
      (agree-below (λ hour. hours_from_bcd (to_bcd hour) == hour) 24 n one_day_agrees lt)

-- What the chip keeps of a time of day with 24 hours is read back: the registers are converted if
-- register B says that they hold binary-coded decimals, and taken as they are if it says binary.
pub convert-in_bcd :
    (register_b : ℕ) (d : RtcDateTime)
    → IsInRange d
    → (bit_and register_b 4 ≡ 0 → convert register_b (in_bcd d) ≡ d)
      × (bit_and register_b 4 ≡ 4 → convert register_b d ≡ d)
unfolding convert
convert-in_bcd register_b d (s, m, h, day, month, year, century) = (
  (λ zero_bit.
      let decimal : (bit_and register_b 4 == 0) ≡ true = ground arith in
      rw decimal (
        rw
          (
            from-to_bcd d.seconds s,
            from-to_bcd d.minutes m,
            hours_from-to_bcd d.hours h,
            from-to_bcd d.day day,
            from-to_bcd d.month month,
            from-to_bcd d.year year,
            from-to_bcd d.century century,
          )
          refl)),
  λ set_bit. let binary : (bit_and register_b 4 == 0) ≡ false = ground arith in rw binary refl,
)
