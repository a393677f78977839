-- ===== src/Rtc/Tests.antt =====
-- Runs of the clock driver of kernel/src/rtc.rs.
use Prim.Native.Nat.{bit_and}
use zoom_os.Prelude.{◌/◌, ◌%◌, ◌≢◌, ℕ, ◌+◌, ◌≤◌, ◌≡◌, refl, false, some, arith, ltb, if◌then◌else◌}
use zoom_os.Rtc.{
  set_up, Chip, RtcDateTime, convert, read_registers, update_in_progress, update_guarded_op,
  in_progress_set,
}
use zoom_os.Rtc.Decode.{in_bcd, convert-in_bcd}
use zoom_os.Rtc.Setup.{set_up_lem}
use zoom_os.Rtc.Guarded.{update_guarded_op_lem}

-- An update is in progress until the fourth access.
abbrev chip : Chip
chip t reg = if ltb t 3 then 128 else 0

abbrev moment : RtcDateTime
moment = record {
  seconds = 59;
  minutes = 30;
  hours = 23;
  weekday = 2;
  day = 31;
  month = 12;
  year = 24;
  century = 20;
}

calm : (s : ℕ) → 3 ≤ s → update_in_progress chip s ≡ false
unfolding update_in_progress in_progress_set
calm s le = let late : ltb s 3 ≡ false = ground arith in rw late refl

abbrev read : ℕ → RtcDateTime
read s = read_registers chip s

convert-in_bcd_example :
    (bit_and 2 4 ≡ 0 → convert 2 (in_bcd moment) ≡ moment)
    × (bit_and 2 4 ≡ 4 → convert 2 moment ≡ moment)
convert-in_bcd_example =
    convert-in_bcd 2 moment
      (omega arith, omega arith, omega arith, omega arith, omega arith, omega arith, omega arith)

update_guarded_op_lem_example :
    (result : RtcDateTime) × (s : ℕ) × (update_guarded_op 4 chip read 0 ≡ some result)
    × (0 ≤ s)
    × (result ≡ read (s + 1))
    × (update_in_progress chip s ≡ false)
    × (update_in_progress chip (s + 10) ≡ false)
update_guarded_op_lem_example = update_guarded_op_lem chip read 3 0 3 calm (omega arith)

abbrev zeroed : ℕ → ℕ
zeroed reg = 0

set_up_lem_example :
    (after : ℕ → ℕ) × (set_up zeroed ≡ some after)
    × (after 10 % 16 ≡ 4)
    × (after 10 / 16 ≡ 0 / 16)
    × (bit_and (after 11) 2 ≡ 2)
    × (bit_and (after 11) 4 ≡ 4)
    × (bit_and (after 11) 64 ≡ 64)
    × ((r : ℕ) → r ≢ 10 → r ≢ 11 → after r ≡ 0)
set_up_lem_example = set_up_lem zeroed (omega arith) (omega arith)
