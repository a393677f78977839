-- ===== src/Display/Writer/Backspace.antt =====
-- Backspaces of the writer of kernel/src/vga_buffer.rs.
use zoom_os.Prelude.{
  ℕ, ◌+◌, ◌-◌, ◌*◌, ◌/◌, ◌≤◌, ◌<◌, ◌≡◌, ◌≢◌, refl, ap, ◌∙◌, true, false, Bool, some, ◌∷◌, arith,
  leb, ◌==◌, ◌>>=◌,
}
use zoom_os.Word.{usize_mod, wrapping_add, wrapping_sub}
use zoom_os.Display.Framebuffer.{PixelFormat}
use zoom_os.Display.Writer.{
  Drawn, character, blank, Writer, is_unknown, draw, wrap_line, wrap_screen, put, write_byte,
  step_up, step_left, backspace,
}

module _ (ink : Drawn → Bool) (format : PixelFormat) (known : is_unknown format ≡ false) where
  draw_known :
      (shape : Drawn) (w : Writer)
      → draw ink format shape w ≡ some (record w { drawn = shape ∷ w.drawn })
  unfolding draw
  draw_known shape w = rw known refl

  -- A character that needs no new line and no new screen.
  write_byte-fits :
      (byte : ℕ) (w : Writer)
      → byte ≢ 10
      → wrapping_add w.x_pos 9 < w.width
      → wrapping_add w.y_pos 15 < w.height
      → write_byte ink format byte w
        ≡ some (record w {
          drawn = character byte w.x_pos w.y_pos ∷ w.drawn;
          x_pos = wrapping_add w.x_pos 9;
        })
  unfolding write_byte wrap_screen wrap_line put
  write_byte-fits byte w printable in_row in_column =
      let other : (byte == 10) ≡ false = ground arith in
      let room : leb w.width (wrapping_add w.x_pos 9) ≡ false = ground arith in
      let more_room : leb w.height (wrapping_add w.y_pos 15) ≡ false = ground arith in
      rw (other, room, more_room, draw_known (character byte w.x_pos w.y_pos) w, put) refl

  backspace-middle :
      (w : Writer)
      → 9 ≤ w.x_pos
      → w.x_pos < usize_mod
      → backspace ink format w
        ≡ some (record w { x_pos = w.x_pos - 9; drawn = blank (w.x_pos - 9) w.y_pos ∷ w.drawn })
  unfolding backspace step_up step_left
  backspace-middle w enough narrow =
      let inside : (w.x_pos == 0) ≡ false = ground arith in
      let back : wrapping_sub w.x_pos 9 ≡ w.x_pos - 9 = omega arith in
      rw (inside, back)
        (draw_known (blank (w.x_pos - 9) w.y_pos) (record w { x_pos = w.x_pos - 9 }))

  backspace-left :
      (w : Writer)
      → w.x_pos ≡ 0
      → w.y_pos < 15
      → 9 ≤ w.stride
      → w.stride / 9 * 9 < usize_mod
      → let x = w.stride / 9 * 9 - 9 in
        let y = usize_mod - 15 + w.y_pos in
        backspace ink format w
        ≡ some (record w { x_pos = x; y_pos = y; drawn = blank x y ∷ w.drawn })
  unfolding backspace step_up step_left
  backspace-left w at_left at_top wide narrow =
      let left : (w.x_pos == 0) ≡ true = ground arith in
      let back : wrapping_sub (w.stride / 9 * 9) 9 ≡ w.stride / 9 * 9 - 9 = omega arith in
      let up : wrapping_sub w.y_pos 15 ≡ usize_mod - 15 + w.y_pos = omega arith in
      rw (left, back, up)
        (draw_known (blank (w.stride / 9 * 9 - 9) (usize_mod - 15 + w.y_pos))
          (record w { x_pos = w.stride / 9 * 9 - 9; y_pos = usize_mod - 15 + w.y_pos }))

  -- On a display of a known format, a backspace after a character that fits on its line and on the
  -- screen blanks that character and brings the position back.
  pub backspace-write_byte :
      (byte : ℕ) (w : Writer)
      → byte ≢ 10
      → w.x_pos + 9 < w.width
      → w.width < usize_mod
      → w.y_pos + 15 < w.height
      → w.height < usize_mod
      → (write_byte ink format byte w >>= backspace ink format)
        ≡ some
            (record w { drawn = blank w.x_pos w.y_pos ∷ character byte w.x_pos w.y_pos ∷ w.drawn })
  backspace-write_byte byte w printable in_row narrow in_column low =
      let next : wrapping_add w.x_pos 9 ≡ w.x_pos + 9 = omega arith in
      let down : wrapping_add w.y_pos 15 ≡ w.y_pos + 15 = omega arith in
      let written : Writer = record w {
        drawn = character byte w.x_pos w.y_pos ∷ w.drawn;
        x_pos = wrapping_add w.x_pos 9;
      } in
      let back : wrapping_add w.x_pos 9 - 9 ≡ w.x_pos = omega (arith, next) in
      ap (λ o. o >>= backspace ink format)
        (write_byte-fits byte w printable (omega (arith, next)) (omega (arith, down)))
      ∙ backspace-middle written (omega (arith, next)) (omega (arith, next))
      ∙ ap
          (λ x. some (record w {
            x_pos = x;
            drawn = blank x w.y_pos ∷ character byte w.x_pos w.y_pos ∷ w.drawn;
          }))
          back

  -- On a display of a known format whose lines end inside the screen: at the start of the screen a
  -- backspace wraps the position to above the screen, and the next character is drawn there.
  pub write_byte-backspace :
      (byte : ℕ) (w : Writer)
      → byte ≢ 10
      → w.x_pos ≡ 0
      → w.y_pos < 15
      → w.y_pos < w.height
      → 9 ≤ w.stride
      → w.stride / 9 * 9 < w.width
      → w.width < usize_mod
      → (after : Writer) × ((backspace ink format w >>= write_byte ink format byte) ≡ some after)
        × (after.drawn
            ≡ character byte (w.stride / 9 * 9 - 9) (usize_mod - 15 + w.y_pos)
              ∷ blank (w.stride / 9 * 9 - 9) (usize_mod - 15 + w.y_pos)
              ∷ w.drawn)
        × (after.y_pos ≡ usize_mod - 15 + w.y_pos)
  write_byte-backspace byte w printable at_left at_top low wide fits narrow =
      let x = w.stride / 9 * 9 - 9 in
      let y = usize_mod - 15 + w.y_pos in
      let above : Writer = record w { x_pos = x; y_pos = y; drawn = blank x y ∷ w.drawn } in
      (
        record above { drawn = character byte x y ∷ blank x y ∷ w.drawn; x_pos = wrapping_add x 9 },
        ap (λ o. o >>= write_byte ink format byte)
              (backspace-left w at_left at_top wide (omega arith))
            ∙ write_byte-fits byte above printable (omega arith) (omega arith),
        refl,
        refl,
      )
