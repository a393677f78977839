-- ===== src/Display/Framebuffer/Pixels.antt =====
-- `draw_pixel` of kernel/src/framebuffer.rs: its bounds, and what it writes.
use zoom_os.Prelude.{
  ℕ, zero, suc, ◌+◌, ◌*◌, ◌≤◌, ◌<◌, ◌≡◌, ◌≢◌, refl, ◌⊎◌, inl, inr, some, ltb, arith, write,
  write-same, write-other, Bool-cases, ltb→lt,
}
use zoom_os.Display.Buffer.{Buffer, set_byte}
use zoom_os.Display.Framebuffer.{
  ℤ, as_usize, PixelFormat, rgb, bgr, u8, unknown, FrameBufferInfo, Color, gray, set_three,
  set_pixel, byte_offset, draw_pixel,
}
use zoom_os.Display.Framebuffer.Offsets.{pixel-end}

-- How many bytes a pixel of the format has, without padding, and which.
abbrev pub channels : PixelFormat → ℕ
channels rgb = 3
channels bgr = 3
channels u8 = 1
channels unknown = 0

unfoldable pub pick : ℕ → ℕ → ℕ → ℕ → ℕ
pick a b c zero = a
pick a b c (suc zero) = b
pick a b c (suc (suc i)) = c

unfoldable pub channel : PixelFormat → Color → ℕ → ℕ
channel rgb c i = pick c.red c.green c.blue i
channel bgr c i = pick c.blue c.green c.red i
channel u8 c i = gray c
channel unknown c i = 0

-- The buffer holds the pixels of the screen, and a pixel holds its channels in a known format.
abbrev pub IsFitting : FrameBufferInfo → Buffer → Type 0
IsFitting info b =
    (info.height * info.width * info.bytes_per_pixel ≤ b.len)
    × (channels info.pixel_format ≤ info.bytes_per_pixel)
    × (info.pixel_format ≢ unknown)

-- The pixel's bytes are its channels, and the others are as before.
abbrev pub IsPainted : PixelFormat → ℕ → Color → Buffer → Buffer → Type 0
IsPainted format offset c before after =
    ((i : ℕ) → i < channels format → after.bytes (offset + i) ≡ channel format c i)
    × ((j : ℕ) → (j < offset) ⊎ (offset + channels format ≤ j) → after.bytes j ≡ before.bytes j)
    × (after.len ≡ before.len)

set_byte-some :
    (i v : ℕ) (b : Buffer)
    → i < b.len
    → set_byte i v b ≡ some (record b { bytes = write b.bytes i v })
unfolding set_byte
set_byte-some i v b lt = ground arith

three : (f : ℕ → ℕ) (o a b c : ℕ) → ℕ → ℕ
three f o a b c = write (write (write f o a) (o + 1) b) (o + 2) c

set_three-some :
    (o a b c : ℕ) (buffer : Buffer)
    → o + 3 ≤ buffer.len
    → set_three o a b c buffer ≡ some (record buffer { bytes = three buffer.bytes o a b c })
unfolding set_three three
set_three-some o a b c buffer fits =
    let one = set_byte-some o a buffer (omega arith) in
    let first = record buffer { bytes = write buffer.bytes o a } in
    let two = set_byte-some (o + 1) b first (omega arith) in
    let second = record first { bytes = write first.bytes (o + 1) b } in
    let last = set_byte-some (o + 2) c second (omega arith) in rw (one, two) last

three-inside : (f : ℕ → ℕ) (o a b c i : ℕ) → i < 3 → three f o a b c (o + i) ≡ pick a b c i
unfolding three pick
three-inside f o a b c zero lt = ground arith
three-inside f o a b c (suc zero) lt = ground arith
three-inside f o a b c (suc (suc zero)) lt = ground arith
three-inside f o a b c (suc (suc (suc i))) lt = absurd (omega arith)

three-outside : (f : ℕ → ℕ) (o a b c j : ℕ) → (j < o) ⊎ (o + 3 ≤ j) → three f o a b c j ≡ f j
unfolding three
three-outside f o a b c j (inl lt) = ground arith
three-outside f o a b c j (inr le) = ground arith

set_pixel-IsPainted :
    (format : PixelFormat) (offset : ℕ) (c : Color) (b : Buffer)
    → offset + channels format ≤ b.len
    → format ≢ unknown
    → (after : Buffer) × (set_pixel format offset c b ≡ some after)
      × IsPainted format offset c b after
unfolding set_pixel channel
set_pixel-IsPainted rgb offset c b fits known = (
  record b { bytes = three b.bytes offset c.red c.green c.blue },
  set_three-some offset c.red c.green c.blue b fits,
  (
    three-inside b.bytes offset c.red c.green c.blue,
    three-outside b.bytes offset c.red c.green c.blue,
    refl,
  ),
)
set_pixel-IsPainted bgr offset c b fits known = (
  record b { bytes = three b.bytes offset c.blue c.green c.red },
  set_three-some offset c.blue c.green c.red b fits,
  (
    three-inside b.bytes offset c.blue c.green c.red,
    three-outside b.bytes offset c.blue c.green c.red,
    refl,
  ),
)
set_pixel-IsPainted u8 offset c b fits known = (
  record b { bytes = write b.bytes offset (gray c) },
  set_byte-some offset (gray c) b (omega arith),
  (
    λ i lt.
        let first : offset + i ≡ offset = omega arith in
        rw first (write-same b.bytes offset (gray c)),
    λ j out.
        write-other b.bytes offset j (gray c) (λ e.
          absurd (elim out [ inl lt ↦ omega (arith, lt, e) | inr le ↦ omega (arith, le, e) ])),
    refl,
  ),
)
set_pixel-IsPainted unknown offset c b fits known = absurd (known refl)

-- A point on the screen gets the color's channels in the order of the format, at its place in the
-- back buffer, and no other byte changes; a point off the screen, as one with a negative
-- coordinate, changes nothing. No write is out of bounds.
pub draw_pixel-Outcome :
    (info : FrameBufferInfo) (x y : ℤ) (color : Color) (b : Buffer)
    → IsFitting info b
    → ((as_usize x < info.width)
        × (as_usize y < info.height)
        × ((after : Buffer) × (draw_pixel info x y color b ≡ some after)
            × IsPainted info.pixel_format
                (byte_offset info (as_usize x) (as_usize y))
                color
                b
                after))
      ⊎ (((info.width ≤ as_usize x) ⊎ (info.height ≤ as_usize y))
          × (draw_pixel info x y color b ≡ some b))
unfolding draw_pixel byte_offset
draw_pixel-Outcome info x y color b (large, room, known) =
    elim (Bool-cases (ltb (as_usize x) info.width)) [
      | inl in_row ↦ elim (Bool-cases (ltb (as_usize y) info.height)) [
        | inl in_column ↦
            let x_in = ltb→lt (as_usize x) info.width in_row in
            let y_in = ltb→lt (as_usize y) info.height in_column in
            let end =
              pixel-end (as_usize x) (as_usize y) info.width info.height info.bytes_per_pixel x_in
                y_in in
            let offset = byte_offset info (as_usize x) (as_usize y) in
            let (after, drawn, painted) =
              set_pixel-IsPainted info.pixel_format offset color b (omega (arith, end, large, room))
                known in
            inl (x_in, y_in, (after, (rw (in_row, in_column) drawn), painted))
        | inr below ↦
            let y_out : info.height ≤ as_usize y = ground arith in
            inr (inr y_out, (rw (in_row, below) refl))
      ]
      | inr right ↦
          let x_out : info.width ≤ as_usize x = ground arith in inr (inl x_out, (rw right refl))
    ]
