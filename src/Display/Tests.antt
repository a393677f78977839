-- ===== src/Display/Tests.antt =====
-- Runs of the drawing of kernel/src/framebuffer.rs and the writer of kernel/src/vga_buffer.rs.
use zoom_os.Prelude.{
  Bool, ◌-◌, ◌>>=◌, ℕ, ◌+◌, ◌*◌, ◌≤◌, ◌<◌, ◌≡◌, ◌≢◌, refl, ◌⊎◌, true, false, some, [], ◌∷◌, arith,
}
use zoom_os.Display.Buffer.{Buffer}
use zoom_os.Display.Framebuffer.{
  pos, negsuc, as_usize, bgr, unknown, FrameBufferInfo, Color, byte_offset, draw_pixel, Area,
  is_zero, fill_solid, draw_frame,
}
use zoom_os.Display.Framebuffer.Pixels.{IsPainted, channel, draw_pixel-Outcome}
use zoom_os.Display.Framebuffer.Fill.{fill_solid_lem}
use zoom_os.Display.Framebuffer.Frame.{draw_frame_lem}
use zoom_os.Display.Writer.{Drawn, blank, character, Writer, write_byte, backspace}
use zoom_os.Word.{usize_mod}
use zoom_os.Display.Print.{Console, Pieces}
use zoom_os.Display.Writer.Backspace.{backspace-write_byte, write_byte-backspace}

-- A screen of 5 by 3 pixels whose rows have room for 8, and its back buffer.
abbrev screen : FrameBufferInfo
screen = record { width = 5; height = 3; stride = 8; bytes_per_pixel = 4; pixel_format = bgr }

abbrev back : Buffer
back = record { len = 60; bytes = λ i. 7 }

abbrev front : Buffer
front = record { len = 96; bytes = λ i. 9 }

abbrev orange : Color
orange = record { red = 255; green = 165; blue = 0 }

abbrev corner : Area
corner = record { x = 3; y = 1; columns = 2; rows = 2 }

abbrev writer : Writer
writer = record { width = 25; height = 40; stride = 32; x_pos = 0; y_pos = 0; drawn = [] }

known : bgr ≢ unknown
known e = cc

corner_not_zero : is_zero corner ≡ false
unfolding is_zero
corner_not_zero = refl

draw_pixel-Outcome_example :
    ((as_usize (negsuc 0) < 5)
      × (as_usize (pos 1) < 3)
      × ((after : Buffer) × (draw_pixel screen (negsuc 0) (pos 1) orange back ≡ some after)
          × IsPainted bgr
              (byte_offset screen (as_usize (negsuc 0)) (as_usize (pos 1)))
              orange
              back
              after))
    ⊎ (((5 ≤ as_usize (negsuc 0)) ⊎ (3 ≤ as_usize (pos 1)))
        × (draw_pixel screen (negsuc 0) (pos 1) orange back ≡ some back))
draw_pixel-Outcome_example =
    draw_pixel-Outcome screen (negsuc 0) (pos 1) orange back (omega arith, omega arith, known)

fill_solid_lem_example :
    (after : Buffer) × (fill_solid screen corner orange back ≡ some after)
    × ((u v i : ℕ)
        → u < 2
        → v < 2
        → i < 3
        → after.bytes (byte_offset screen (3 + u) (1 + v) + i) ≡ channel bgr orange i)
    × ((x y i : ℕ)
        → x < 5
        → ((y < 1) ⊎ (3 ≤ y)) ⊎ ((x < 3) ⊎ (5 ≤ x))
        → i < 4
        → after.bytes (byte_offset screen x y + i) ≡ 7)
fill_solid_lem_example =
    fill_solid_lem screen corner orange back (omega arith) refl known
      (omega arith, omega arith, omega arith) (omega arith) (omega arith) corner_not_zero

draw_frame_lem_example :
    (after : Buffer) × (draw_frame screen back front ≡ some after)
    × ((x y i : ℕ) → x < 5 → y < 3 → i < 4 → after.bytes ((y * 8 + x) * 4 + i) ≡ 7)
    × ((x y i : ℕ) → 5 ≤ x → x < 8 → i < 4 → after.bytes ((y * 8 + x) * 4 + i) ≡ 9)
draw_frame_lem_example = draw_frame_lem screen back front (omega arith) (omega arith)

abbrev console : Console
console = record {
  interrupts = true;
  writer = some writer;
  display_init = true;
  display_locked = false;
  should_use_screen = true;
  frames = [];
  warnings = 0;
}

-- Every shape has ink.
abbrev all_ink : Drawn → Bool
all_ink shape = true

abbrev hi : Pieces
hi = (72 ∷ 105 ∷ 33 ∷ []) ∷ []

no_newline : let byte : ℕ = 72 in byte ≢ 10
no_newline = omega arith

backspace-write_byte_example :
    (write_byte all_ink bgr 72 writer >>= backspace all_ink bgr)
    ≡ some (record writer { drawn = blank 0 0 ∷ character 72 0 0 ∷ [] })
backspace-write_byte_example =
    backspace-write_byte all_ink bgr refl 72 writer no_newline (omega arith) (omega arith)
      (omega arith) (omega arith)

abbrev wide_writer : Writer
wide_writer = record writer { width = 32 }

write_byte-backspace_example :
    (after : Writer) × ((backspace all_ink bgr wide_writer >>= write_byte all_ink bgr 72)
      ≡ some after)
    × (after.drawn ≡ character 72 18 (usize_mod - 15) ∷ blank 18 (usize_mod - 15) ∷ [])
    × (◌≡◌ {A = ℕ} after.y_pos (usize_mod - 15))
write_byte-backspace_example =
    write_byte-backspace all_ink bgr refl 72 wide_writer no_newline refl (omega arith) (omega arith)
      (omega arith) (omega arith) (omega arith)
