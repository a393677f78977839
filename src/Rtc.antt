-- ===== src/Rtc.antt =====
-- The real-time clock: kernel/src/rtc.rs. The chip is a parameter, as are the two checked
-- constructors of the date library.
pub mod Decode
pub mod Guarded
pub mod Setup
mod Tests
use Prim.Native.Nat.{bit_and, bit_or}
use zoom_os.Prelude.{
  ◌%◌, write, ltb, ◌&&◌, ◌>>=◌, ℕ, zero, suc, ◌+◌, ◌*◌, ◌/◌, Bool, true, false, Option, none, some,
  ◌==◌, if◌then◌else◌,
}

-- The registers of the chip at each access of the driver, which count as its time.
abbrev pub Chip : Type 0
Chip = ℕ → ℕ → ℕ

pub record RtcDateTime : Type 0 where
  pub seconds : ℕ
  pub minutes : ℕ
  pub hours : ℕ
  pub weekday : ℕ
  pub day : ℕ
  pub month : ℕ
  pub year : ℕ
  pub century : ℕ

pub data FromNaiveDateTimeError : Type 0 where
  invalid_date : ℕ → ℕ → ℕ → FromNaiveDateTimeError
  invalid_time : ℕ → ℕ → ℕ → FromNaiveDateTimeError

pub data Result (A : Type 0) : Type 0 where
  ok : A → Result A
  err : FromNaiveDateTimeError → Result A

unfoldable pub in_progress_set : ℕ → Bool
in_progress_set status_reg_a = bit_and status_reg_a 128 == 128

unfoldable pub from_bcd : ℕ → ℕ
from_bcd n = bit_and n 15 + n / 16 * 10

-- The hour keeps the bit of the afternoon.
unfoldable pub hours_from_bcd : ℕ → ℕ
hours_from_bcd n = bit_or (bit_and n 15 + bit_and n 112 / 16 * 10) (bit_and n 128)

-- The conversion if register B says that the values are binary-coded decimals.
unfoldable pub convert : ℕ → RtcDateTime → RtcDateTime
convert register_b d =
    if bit_and register_b 4 == 0
    then record {
      seconds = from_bcd d.seconds;
      minutes = from_bcd d.minutes;
      hours = hours_from_bcd d.hours;
      weekday = d.weekday;
      day = from_bcd d.day;
      month = from_bcd d.month;
      year = from_bcd d.year;
      century = from_bcd d.century;
    }
    else d

-- The nine reads, in order, from the time `t` on.
unfoldable pub read_registers : Chip → ℕ → RtcDateTime
read_registers chip t = convert (chip (t + 8) 11) (record {
  seconds = chip t 0;
  minutes = chip (t + 1) 2;
  hours = chip (t + 2) 4;
  weekday = chip (t + 3) 6;
  day = chip (t + 4) 7;
  month = chip (t + 5) 8;
  year = chip (t + 6) 9;
  century = chip (t + 7) 50;
})

unfoldable pub update_in_progress : Chip → ℕ → Bool
update_in_progress chip t = in_progress_set (chip t 10)

-- The loop of `update_guarded_op` for an operation that takes nine accesses; `none` while it has
-- not ended.
unfoldable pub update_guarded_op : {A : Type 0} → ℕ → Chip → (ℕ → A) → ℕ → Option A
update_guarded_op zero chip f t = none
update_guarded_op (suc fuel) chip f t =
    let again = update_guarded_op fuel chip f (t + 1) in
    let retry = update_guarded_op fuel chip f (t + 11) in
    if update_in_progress chip t
    then again
    else if update_in_progress chip (t + 10)
    then retry
    else some (f (t + 1))

module _ {D T : Type 0} (from_ymd_opt : ℕ → ℕ → ℕ → Option D)
    (from_hms_opt : ℕ → ℕ → ℕ → Option T) where
  -- `try_from`
  unfoldable pub try_from : RtcDateTime → Result (D × T)
  try_from value =
      let year = value.century * 100 + value.year in
      elim (from_ymd_opt year value.month value.day) [
        | none ↦ err (invalid_date year value.month value.day)
        | some date ↦ elim (from_hms_opt value.hours value.minutes value.seconds) [
          | none ↦ err (invalid_time value.hours value.minutes value.seconds)
          | some time ↦ ok (date, time)
        ]
      ]

  unfoldable pub try_read_date_time : ℕ → Chip → ℕ → Option (Result (D × T))
  try_read_date_time fuel chip t =
      update_guarded_op fuel chip (λ s. try_from (read_registers chip s)) t

-- The registers, which the driver reaches by the low seven bits of an index; the top bit masks the
-- non-maskable interrupt.
unfoldable pub read_cmos_reg : ℕ → (ℕ → ℕ) → ℕ
read_cmos_reg reg registers = registers (reg % 128)

unfoldable pub write_cmos_reg : ℕ → ℕ → (ℕ → ℕ) → ℕ → ℕ
write_cmos_reg reg val registers = write registers (reg % 128) val

-- `none` is the failed assertion.
unfoldable pub set_freq : ℕ → (ℕ → ℕ) → Option (ℕ → ℕ)
set_freq rate registers =
    if ltb 2 rate && ltb rate 16
    then some
        (write_cmos_reg 138 (bit_or (bit_and (read_cmos_reg 138 registers) 240) rate) registers)
    else none

-- The read of register C at the end only tells the chip to go on.
unfoldable pub enable_interrupts : (ℕ → ℕ) → ℕ → ℕ
enable_interrupts registers = write_cmos_reg 139 (bit_or (read_cmos_reg 139 registers) 64) registers

unfoldable pub set_data_format : (ℕ → ℕ) → ℕ → ℕ
set_data_format registers =
    write_cmos_reg 11 (bit_or (bit_or (read_cmos_reg 11 registers) 2) 4) registers

unfoldable pub set_up : (ℕ → ℕ) → Option (ℕ → ℕ)
set_up registers =
    set_freq 4 (set_data_format registers) >>= λ rated. some (enable_interrupts rated)
