-- ===== src/Display/Framebuffer/Fill.antt =====
-- `fill_solid`, `clear` and `draw_frame` of kernel/src/framebuffer.rs.
use zoom_os.Prelude.{
  ℕ, zero, suc, ◌+◌, ◌*◌, ◌%◌, ◌≤◌, ◌<◌, ◌≡◌, ◌≢◌, refl, ◌∙◌, sym, ◌⊎◌, ⊎-map, inl, inr, false,
  some, arith,
}
use zoom_os.Display.Buffer.{
  Buffer, copy_rows, rows_of, copy_rows-some, rows_of-inside, rows_of-outside,
}
use zoom_os.Display.Framebuffer.{
  PixelFormat, rgb, bgr, u8, unknown, FrameBufferInfo, Color, gray, word_byte, words, wide,
  byte_offset, Area, is_zero, fill_solid,
}
use zoom_os.Display.Framebuffer.Offsets.{
  pixel-in_row, area-row, area-end, pixel-before, pixel-behind, pixel-apart,
}
use zoom_os.Display.Framebuffer.Pixels.{channels, pick, channel}

-- The pixel size that the code asserts.
abbrev pub asserted : PixelFormat → ℕ
asserted rgb = 4
asserted bgr = 4
asserted u8 = 1
asserted unknown = 0

abbrev pub IsBytes : Color → Type 0
IsBytes c = (c.red < 256) × (c.green < 256) × (c.blue < 256)

words-pick :
    (low middle high x i : ℕ)
    → low < 256
    → middle < 256
    → high < 256
    → i < 3
    → words low middle high (x * 4 + i) ≡ pick low middle high i
unfolding words word_byte pick
words-pick low middle high x zero l m h lt =
    let at : (x * 4 + 0) % 4 ≡ 0 = omega arith in rw at (omega arith)
words-pick low middle high x (suc zero) l m h lt =
    let at : (x * 4 + 1) % 4 ≡ 1 = omega arith in rw at (omega arith)
words-pick low middle high x (suc (suc zero)) l m h lt =
    let at : (x * 4 + 2) % 4 ≡ 2 = omega arith in rw at (omega arith)
words-pick low middle high x (suc (suc (suc i))) l m h lt = absurd (omega arith)

-- The row to copy has the channels of the color in each pixel.
wide-channel :
    (info : FrameBufferInfo) (c : Color) (format : PixelFormat)
    → IsBytes c
    → info.bytes_per_pixel ≡ asserted format
    → format ≢ unknown
    → (row : ℕ → ℕ) × (wide info c format ≡ some row)
      × ((x i : ℕ) → i < channels format → row (x * info.bytes_per_pixel + i) ≡ channel format c i)
unfolding wide channel
wide-channel info c rgb (r, g, b) four known = (
  words c.red c.green c.blue,
  (rw four refl),
  λ x i lt. rw four (words-pick c.red c.green c.blue x i r g b lt),
)
wide-channel info c bgr (r, g, b) four known = (
  words c.blue c.green c.red,
  (rw four refl),
  λ x i lt. rw four (words-pick c.blue c.green c.red x i b g r lt),
)
wide-channel info c u8 h one known = ((λ i. gray c), (rw one refl), λ x i lt. refl)
wide-channel info c unknown h zero_size known = absurd (known refl)

channels-asserted : (format : PixelFormat) → channels format ≤ asserted format
channels-asserted rgb = omega arith
channels-asserted bgr = omega arith
channels-asserted u8 = omega arith
channels-asserted unknown = omega arith

other_row : (y first rows v : ℕ) → v < rows → (y < first) ⊎ (first + rows ≤ y) → y ≢ first + v
other_row y first rows v lt (inl above) e = absurd (omega (arith, above, e))
other_row y first rows v lt (inr below) e = absurd (omega (arith, below, e, lt))

-- A run of equal rows of pixels in a buffer of the screen's width.
module _ (width height bpp : ℕ) (area : Area) (row : ℕ → ℕ) (b : Buffer) where
  start : ℕ → ℕ
  start v = (area.y + v) * width + area.x

  offset : ℕ → ℕ
  offset v = start v * bpp

  filled : ℕ → ℕ
  filled = rows_of area.rows (area.columns * bpp) (λ v. row) offset b.bytes

  fill-some :
      height * width * bpp ≤ b.len
      → area.x + area.columns ≤ width
      → area.y + area.rows ≤ height
      → copy_rows area.rows (area.columns * bpp) (λ v. row) offset b
        ≡ some (record b { bytes = filled })
  unfolding filled offset start
  fill-some large right bottom =
      copy_rows-some (area.columns * bpp) (λ v. row) offset area.rows b
        (λ v lt.
          let end =
            area-end area.x (area.y + v) area.columns width height bpp right (omega arith) in
          omega (arith, end, large))

  fill-inside :
      area.x + area.columns ≤ width
      → (u v i : ℕ) → u < area.columns
      → v < area.rows
      → i < bpp
      → filled (((area.y + v) * width + (area.x + u)) * bpp + i) ≡ row (u * bpp + i)
  unfolding filled offset start
  fill-inside right u v i u_in v_in i_in =
      let place : (start v + u) * bpp + i ≡ offset v + (u * bpp + i) =
        sym (pixel-in_row (start v) u bpp i) in
      let there : (area.y + v) * width + (area.x + u) ≡ start v + u = omega arith in
      rw (there, place)
        (rows_of-inside (area.columns * bpp) (λ z. row) offset
          (λ y z lt.
            area-row area.x (area.y + y) (area.y + z) area.columns width bpp right (omega arith))
          area.rows b.bytes v (u * bpp + i) v_in (pixel-before u area.columns bpp i u_in i_in))

  fill-outside :
      area.x + area.columns ≤ width
      → (x y i : ℕ) → x < width
      → ((y < area.y) ⊎ (area.y + area.rows ≤ y)) ⊎ ((x < area.x) ⊎ (area.x + area.columns ≤ x))
      → i < bpp
      → filled ((y * width + x) * bpp + i) ≡ b.bytes ((y * width + x) * bpp + i)
  unfolding filled offset start
  fill-outside right x y i x_in out i_in =
      rows_of-outside (area.columns * bpp) (λ v. row) offset area.rows b.bytes
        ((y * width + x) * bpp + i)
        (λ v lt.
          let apart : (y ≢ area.y + v) ⊎ ((x < area.x) ⊎ (area.x + area.columns ≤ x)) =
            ⊎-map (other_row y area.y area.rows v lt) (λ s. s) out in
          ⊎-map (λ before. pixel-before (y * width + x) (start v) bpp i before i_in)
            (λ behind. pixel-behind (y * width + x) (start v) area.columns bpp i behind)
            (pixel-apart x y area.x (area.y + v) area.columns width x_in right apart))

-- A rectangle on the screen that is filled gets, in each of its pixels, the channels that
-- `draw_pixel` writes there, and no byte of another pixel changes, if the buffer holds the pixels
-- and a pixel has the size that the code asserts for its format.
pub fill_solid_lem :
    (info : FrameBufferInfo) (area : Area) (color : Color) (b : Buffer)
    → info.height * info.width * info.bytes_per_pixel ≤ b.len
    → info.bytes_per_pixel ≡ asserted info.pixel_format
    → info.pixel_format ≢ unknown
    → IsBytes color
    → area.x + area.columns ≤ info.width
    → area.y + area.rows ≤ info.height
    → is_zero area ≡ false
    → (after : Buffer) × (fill_solid info area color b ≡ some after)
      × ((u v i : ℕ)
          → u < area.columns
          → v < area.rows
          → i < channels info.pixel_format
          → after.bytes (byte_offset info (area.x + u) (area.y + v) + i)
            ≡ channel info.pixel_format color i)
      × ((x y i : ℕ)
          → x < info.width
          → ((y < area.y) ⊎ (area.y + area.rows ≤ y)) ⊎ ((x < area.x) ⊎ (area.x + area.columns ≤ x))
          → i < info.bytes_per_pixel
          → after.bytes (byte_offset info x y + i) ≡ b.bytes (byte_offset info x y + i))
unfolding fill_solid byte_offset offset start
fill_solid_lem info area color b large size known bytes right bottom some_area =
    let bpp = info.bytes_per_pixel in
    let (row, found, pixel) = wide-channel info color info.pixel_format bytes size known in
    let copied = fill-some info.width info.height bpp area row b large right bottom in
    (
      record b { bytes = filled info.width info.height bpp area row b },
      (rw (some_area, found) copied),
      (λ u v i u_in v_in i_in.
          let inside : i < bpp = omega (arith, channels-asserted info.pixel_format, size, i_in) in
          fill-inside info.width info.height bpp area row b right u v i u_in v_in inside
          ∙ pixel u i i_in),
      λ x y i x_in out i_in.
          fill-outside info.width info.height bpp area row b right x y i x_in out i_in,
    )
