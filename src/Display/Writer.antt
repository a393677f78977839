-- ===== src/Display/Writer.antt =====
-- `Writer` of kernel/src/vga_buffer.rs: the position of the next character on the screen.
pub mod Visible
pub mod Backspace
use zoom_os.Word.{wrapping_add, wrapping_sub}
use zoom_os.Display.Framebuffer.{PixelFormat, rgb, bgr, u8, unknown}
use zoom_os.Prelude.{
  ℕ, ◌+◌, ◌-◌, ◌*◌, ◌/◌, ◌≤◌, ◌<◌, ◌≡◌, refl, ap, ◌∙◌, ◌⊎◌, inl, inr, Bool, true, false, ◌&&◌, ◌||◌,
  Option, none, some, List, [], ◌∷◌, ◌++◌, arith, ltb, leb, ◌==◌, if◌then◌else◌, ◌>>=◌, Bool-cases,
  All,
}

-- What is drawn: a cleared screen, a character at a place, or a place that is blanked.
pub data Drawn : Type 0 where
  cleared : Drawn
  character : ℕ → ℕ → ℕ → Drawn
  blank : ℕ → ℕ → Drawn

-- The position, the sizes that the writer looks at, and what was drawn, the last first.
pub record Writer : Type 0 where
  pub width : ℕ
  pub height : ℕ
  pub stride : ℕ
  pub x_pos : ℕ
  pub y_pos : ℕ
  pub drawn : List Drawn

unfoldable pub new_line : Writer → Writer
new_line w = record w { y_pos = wrapping_add w.y_pos 15; x_pos = 0 }

-- The first step of `write_byte` for a byte that is no newline.
unfoldable pub wrap_line : Writer → Writer
wrap_line w = if leb w.width (wrapping_add w.x_pos 9) then new_line w else w

abbrev pub is_unknown : PixelFormat → Bool
is_unknown rgb = false
is_unknown bgr = false
is_unknown u8 = false
is_unknown unknown = true

-- `ink` tells of a shape whether the library has a pixel of it to draw on the screen, whose format is
-- `format`.
module _ (ink : Drawn → Bool) (format : PixelFormat) where
  -- `draw`, `draw_styled` and `clear`: a pixel in an unknown format is a panic (`none`).
  unfoldable pub draw : Drawn → Writer → Option Writer
  draw shape w =
      if is_unknown format && ink shape then none else some (record w { drawn = shape ∷ w.drawn })

  unfoldable pub wrap_screen : Writer → Option Writer
  wrap_screen w =
      if leb w.height (wrapping_add w.y_pos 15)
      then draw cleared (record w { x_pos = 0; y_pos = 0 })
      else some w

  unfoldable pub put : ℕ → Writer → Option Writer
  put byte w = draw (character byte w.x_pos w.y_pos) w >>= λ d.
      some (record d { x_pos = wrapping_add d.x_pos 9 })

  unfoldable pub write_byte : ℕ → Writer → Option Writer
  write_byte byte w =
      if byte == 10 then some (new_line w) else wrap_screen (wrap_line w) >>= put byte

  -- To the end of the line above, where the line starts.
  unfoldable pub step_up : Writer → Writer
  step_up w =
      if w.x_pos == 0
      then record w { y_pos = wrapping_sub w.y_pos 15; x_pos = w.stride / 9 * 9 }
      else w

  unfoldable pub step_left : Writer → Option Writer
  step_left w =
      let moved : Writer = record w { x_pos = wrapping_sub w.x_pos 9 } in
      draw (blank moved.x_pos moved.y_pos) moved

  unfoldable pub backspace : Writer → Option Writer
  backspace w = step_left (step_up w)

  -- The arms of `write_string`: what is not printable is shown as 0xfe.
  unfoldable pub write_char : ℕ → Writer → Option Writer
  write_char byte w =
      if leb 32 byte && leb byte 126 || byte == 10
      then write_byte byte w
      else if byte == 8
      then backspace w
      else write_byte 254 w

  unfoldable pub write_string : List ℕ → Writer → Option Writer
  write_string [] w = some w
  write_string (byte ∷ bytes) w = write_char byte w >>= λ after. write_string bytes after
