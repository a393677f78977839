-- ===== src/Display/Framebuffer/Frame.antt =====
-- `clear` and `draw_frame` of kernel/src/framebuffer.rs.
use mathlib.Core.Path.{fun_ext}
use native.Mathlib.Nat.{mul-le-mul_right}
use zoom_os.Prelude.{
  ℕ, ◌+◌, ◌*◌, ◌≤◌, ◌<◌, ◌≡◌, refl, ap, ◌∙◌, ⊎-map, inr, false, some, arith, ◌>>=◌,
}
use zoom_os.Display.Buffer.{
  Buffer, copy_rows, rows_of, copy_rows-some, rows_of-inside, rows_of-outside,
}
use zoom_os.Display.Framebuffer.{
  FrameBufferInfo, Color, wide, byte_offset, Area, is_zero, fill_solid, clear, draw_frame,
}
use zoom_os.Display.Framebuffer.Offsets.{
  pixel-in_row, pixel-before, pixel-behind, pixel-apart, row-end,
}

abbrev pub whole_screen : FrameBufferInfo → Area
whole_screen info = record { x = 0; y = 0; columns = info.width; rows = info.height }

offset-zero : (y width bpp : ℕ) → y * width * bpp ≡ ((0 + y) * width + 0) * bpp
offset-zero y width bpp =
    let same : y * width ≡ (0 + y) * width + 0 = omega arith in ap (λ p. p * bpp) same

-- Clearing a screen that has pixels is filling its whole rectangle.
pub clear-fill_solid :
    (info : FrameBufferInfo) (color : Color) (b : Buffer)
    → is_zero (whole_screen info) ≡ false
    → clear info color b ≡ fill_solid info (whole_screen info) color b
unfolding clear fill_solid
clear-fill_solid info color b some_area =
    let count = info.width * info.bytes_per_pixel in
    let offsets : (λ (y : ℕ). y * info.width * info.bytes_per_pixel)
        ≡ (λ (y : ℕ). ((0 + y) * info.width + 0) * info.bytes_per_pixel) =
      fun_ext (λ y. offset-zero y info.width info.bytes_per_pixel) in
    ap
      (λ (f : ℕ → ℕ).
        wide info color info.pixel_format >>= λ row. copy_rows info.height count (λ y. row) f b)
      offsets
    ∙ rw some_area refl

-- Where no row of the screen is shorter than a row of the back buffer, drawing the frame writes
-- only inside the screen's memory, each pixel becomes what the back buffer holds for it, and the
-- bytes behind the pixels of each row stay.
pub draw_frame_lem :
    (info : FrameBufferInfo) (back front : Buffer)
    → info.width ≤ info.stride
    → info.height * info.stride * info.bytes_per_pixel ≤ front.len
    → (after : Buffer) × (draw_frame info back front ≡ some after)
      × ((x y i : ℕ)
          → x < info.width
          → y < info.height
          → i < info.bytes_per_pixel
          → after.bytes ((y * info.stride + x) * info.bytes_per_pixel + i)
            ≡ back.bytes (byte_offset info x y + i))
      × ((x y i : ℕ)
          → info.width ≤ x
          → x < info.stride
          → i < info.bytes_per_pixel
          → after.bytes ((y * info.stride + x) * info.bytes_per_pixel + i)
            ≡ front.bytes ((y * info.stride + x) * info.bytes_per_pixel + i))
unfolding draw_frame byte_offset
draw_frame_lem info back front wider large =
    let bpp = info.bytes_per_pixel in
    let count = info.width * bpp in
    let src : ℕ → ℕ → ℕ = λ y i. back.bytes (y * info.width * bpp + i) in
    let offset : ℕ → ℕ = λ y. y * info.stride * bpp in
    let ends : (y z : ℕ) → y < z → offset y + count ≤ offset z = λ y z lt.
      let row = row-end y z info.stride bpp lt in
      let shorter : info.width * bpp ≤ info.stride * bpp = mul-le-mul_right bpp wider in
      omega (arith, row, shorter) in
    let after = record front { bytes = rows_of info.height count src offset front.bytes } in
    (
      after,
      copy_rows-some count src offset info.height front
          (λ y lt. omega (arith, ends y info.height lt, large)),
      (λ x y i x_in y_in i_in.
          let place = pixel-in_row (y * info.stride) x bpp i in
          let from = pixel-in_row (y * info.width) x bpp i in
          let copied =
            rows_of-inside count src offset ends info.height front.bytes y (x * bpp + i) y_in
              (pixel-before x info.width bpp i x_in i_in) in
          rw⁻¹ (place, from) copied),
      λ x y i behind x_in i_in.
          rows_of-outside count src offset info.height front.bytes ((y * info.stride + x) * bpp + i)
            (λ z lt.
              let beside =
                pixel-apart x y 0 z info.width info.stride x_in (omega (arith, wider))
                  (inr (inr (omega (arith, behind)))) in
              ⊎-map
                (λ before.
                  pixel-before (y * info.stride + x) (z * info.stride) bpp i (omega (arith, before))
                    i_in)
                (λ past.
                  pixel-behind (y * info.stride + x) (z * info.stride) info.width bpp i
                    (omega (arith, past)))
                beside),
    )
