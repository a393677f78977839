-- ===== src/Rtc/Setup.antt =====
-- What the set-up of kernel/src/rtc.rs leaves in the registers of the chip.
use Prim.Native.Nat.{bit_and, bit_or}
use zoom_os.Prelude.{
  ℕ, Bool, ◌/◌, ◌%◌, ◌<◌, ◌≡◌, ◌≢◌, refl, ◌∙◌, true, false, ◌&&◌, some, ◌==◌, ==_iff, write,
  write-other, agree, agree-below,
}
use zoom_os.Rtc.{
  read_cmos_reg, write_cmos_reg, set_freq, enable_interrupts, set_data_format, set_up,
}

abbrev with_rate : ℕ → ℕ
with_rate a = bit_or (bit_and a 240) 4

abbrev with_format : ℕ → ℕ
with_format b = bit_or (bit_or (bit_or b 2) 4) 64

abbrev rate_kept : ℕ → Bool
rate_kept a = (with_rate a % 16 == 4) && (with_rate a / 16 == a / 16)

abbrev format_set : ℕ → Bool
format_set b =
    (bit_and (with_format b) 2 == 2)
    && ((bit_and (with_format b) 4 == 4) && (bit_and (with_format b) 64 == 64))

bytes_keep_rate : agree rate_kept 256 ≡ true
unfolding agree
bytes_keep_rate = refl

bytes_set_format : agree format_set 256 ≡ true
unfolding agree
bytes_set_format = refl

both : (b c : Bool) → (b && c) ≡ true → (b ≡ true) × (c ≡ true)
both true true e = (refl, refl)
both true false e = absurd cc
both false c e = absurd cc

rate_lem : (a : ℕ) → a < 256 → (with_rate a % 16 ≡ 4) × (with_rate a / 16 ≡ a / 16)
rate_lem a byte =
    let (low, high) =
      both (with_rate a % 16 == 4) (with_rate a / 16 == a / 16)
        (agree-below rate_kept 256 a bytes_keep_rate byte) in
    ((==_iff (with_rate a % 16) 4).0 low, (==_iff (with_rate a / 16) (a / 16)).0 high)

format_lem :
    (b : ℕ)
    → b < 256
    → (bit_and (with_format b) 2 ≡ 2)
      × (bit_and (with_format b) 4 ≡ 4)
      × (bit_and (with_format b) 64 ≡ 64)
format_lem b byte =
    let (hours, rest) =
      both (bit_and (with_format b) 2 == 2)
        ((bit_and (with_format b) 4 == 4) && (bit_and (with_format b) 64 == 64))
        (agree-below format_set 256 b bytes_set_format byte) in
    let (binary, periodic) =
      both (bit_and (with_format b) 4 == 4) (bit_and (with_format b) 64 == 64) rest in
    (
      (==_iff (bit_and (with_format b) 2) 2).0 hours,
      (==_iff (bit_and (with_format b) 4) 4).0 binary,
      (==_iff (bit_and (with_format b) 64) 64).0 periodic,
    )

-- After the set-up of a chip with registers of one byte, register A has rate 4 in its low bits and
-- its high bits as before, register B asks for 24 hours, binary values and the periodic interrupt,
-- and no other register has changed.
pub set_up_lem :
    (registers : ℕ → ℕ)
    → registers 10 < 256
    → registers 11 < 256
    → (after : ℕ → ℕ) × (set_up registers ≡ some after)
      × (after 10 % 16 ≡ 4)
      × (after 10 / 16 ≡ registers 10 / 16)
      × (bit_and (after 11) 2 ≡ 2)
      × (bit_and (after 11) 4 ≡ 4)
      × (bit_and (after 11) 64 ≡ 64)
      × ((r : ℕ) → r ≢ 10 → r ≢ 11 → after r ≡ registers r)
unfolding set_up set_freq enable_interrupts set_data_format read_cmos_reg write_cmos_reg
set_up_lem registers a_byte b_byte =
    let a = registers 10 in
    let b = registers 11 in
    let format = bit_or (bit_or b 2) 4 in
    let after = write (write (write registers 11 format) 10 (with_rate a)) 11 (with_format b) in
    let (low, high) = rate_lem a a_byte in
    let (hours, binary, periodic) = format_lem b b_byte in
    (
      after,
      refl,
      low,
      high,
      hours,
      binary,
      periodic,
      λ r not_a not_b.
          write-other (write (write registers 11 format) 10 (with_rate a)) 11 r (with_format b)
            not_b
          ∙ (write-other (write registers 11 format) 10 r (with_rate a) not_a
              ∙ write-other registers 11 r format not_b),
    )
