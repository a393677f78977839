-- ===== src/Display/Writer/Visible.antt =====
-- Where the writer of kernel/src/vga_buffer.rs draws.
use native.Mathlib.Nat.{mod-eq_of_lt}
use zoom_os.Prelude.{
  ℕ, suc, ◌+◌, ◌*◌, ◌≤◌, ◌<◌, ◌≡◌, ◌≢◌, ◌⊎◌, refl, ap, ◌∙◌, inl, inr, true, false, Bool, ◌&&◌, ◌||◌,
  some, List, [], ◌∷◌, arith, leb, ◌==◌, Bool-cases, All, length, if◌then◌else◌,
}
use zoom_os.Word.{usize_mod, wrapping_add}
use zoom_os.Display.Framebuffer.{PixelFormat}
use zoom_os.Display.Writer.{
  Drawn, cleared, character, blank, Writer, is_unknown, draw, new_line, wrap_line, wrap_screen, put,
  write_byte, write_char, write_string,
}

-- The character lies on the screen.
abbrev pub IsVisible : ℕ → ℕ → Drawn → Type 0
IsVisible width height cleared = Unit {0}
IsVisible width height (character byte x y) = (x + 9 ≤ width) × (y + 15 ≤ height)
IsVisible width height (blank x y) = Unit {0}

-- The screen has these sizes and more room than one character takes, and all that was drawn on it
-- is visible.
abbrev pub IsOnScreen : ℕ → ℕ → Writer → Type 0
IsOnScreen width height w =
    (w.width ≡ width)
    × (w.height ≡ height)
    × (10 ≤ width)
    × (16 ≤ height)
    × All (IsVisible width height) w.drawn

-- The characters since the screen was last cleared or blanked stand in lines, without overlap, and
-- all of them in front of the place.
abbrev pub Follows : List Drawn → ℕ → ℕ → Type 0
Follows [] x y = Unit {0}
Follows (cleared ∷ drawn) x y = Unit {0}
Follows (blank _ _ ∷ drawn) x y = Unit {0}
Follows (character byte left top ∷ drawn) x y =
    (((top ≡ y) × (left + 9 ≤ x)) ⊎ (top + 15 ≤ y)) × Follows drawn left top

-- The bytes that were drawn, the last first.
abbrev pub shown : List Drawn → List ℕ
shown [] = []
shown (cleared ∷ drawn) = shown drawn
shown (blank _ _ ∷ drawn) = shown drawn
shown (character byte _ _ ∷ drawn) = byte ∷ shown drawn

-- A text in front of bytes: a newline draws nothing, and 0xfe stands for what is not printable.
abbrev pub spelled : List ℕ → List ℕ → List ℕ
spelled [] seen = seen
spelled (byte ∷ bytes) seen =
    if byte == 10
    then spelled bytes seen
    else spelled bytes ((if leb 32 byte && leb byte 126 then byte else 254) ∷ seen)

pub record IsWriting (width height : ℕ) (w : Writer) : Type 0 where
  pub on_screen : IsOnScreen width height w
  pub in_line : w.x_pos ≤ width
  pub follows : Follows w.drawn w.x_pos w.y_pos

Follows-line : (drawn : List Drawn) (x y : ℕ) → Follows drawn x y → Follows drawn 0 (y + 15)
Follows-line [] x y h = tt
Follows-line (cleared ∷ drawn) x y h = tt
Follows-line (blank _ _ ∷ drawn) x y h = tt
Follows-line (character byte left top ∷ drawn) x y (inl same, h) = (inr (omega (arith, same)), h)
Follows-line (character byte left top ∷ drawn) x y (inr above, h) = (inr (omega (arith, above)), h)

module _ (width height : ℕ) (ink : Drawn → Bool) (format : PixelFormat)
    (known : is_unknown format ≡ false) (narrow : width + 9 < usize_mod) where
  new_line-IsWriting :
      (w : Writer)
      → IsWriting width height w
      → w.y_pos + 15 < usize_mod
      → IsWriting width height (new_line w) × ((new_line w).y_pos ≡ w.y_pos + 15)
  unfolding new_line
  new_line-IsWriting w h room =
      let no_wrap : wrapping_add w.y_pos 15 ≡ w.y_pos + 15 = mod-eq_of_lt room in
      rw no_wrap (
        record {
          on_screen = h.on_screen;
          in_line = omega arith;
          follows = Follows-line w.drawn w.x_pos w.y_pos h.follows;
        },
        refl,
      )

  -- A writer with room for a character on its line, not far below another one.
  record Fits (w after : Writer) : Type 0 where
    writing : IsWriting width height after
    in_row : after.x_pos + 9 < width
    above : after.y_pos ≤ w.y_pos + 15
    same : shown after.drawn ≡ shown w.drawn

  wrap_line-Fits :
      (w : Writer) → IsWriting width height w → w.y_pos + 15 < usize_mod → Fits w (wrap_line w)
  unfolding wrap_line new_line
  wrap_line-Fits w h room =
      let no_wrap : wrapping_add w.x_pos 9 ≡ w.x_pos + 9 =
        mod-eq_of_lt (omega (arith, h.in_line)) in
      let (line, down) = new_line-IsWriting w h room in
      elim (Bool-cases (leb w.width (w.x_pos + 9))) [
        | inl full ↦
            rw (no_wrap, full)
              (record {
                writing = line;
                in_row = omega (arith, h.on_screen);
                above = omega (arith, down);
                same = refl;
              })
        | inr free ↦
            rw (no_wrap, free)
              (record {
                writing = h;
                in_row = ground (arith, free, h.on_screen.0);
                above = omega arith;
                same = refl;
              })
      ]

  draw-some :
      (shape : Drawn) (w : Writer)
      → draw ink format shape w ≡ some (record w { drawn = shape ∷ w.drawn })
  unfolding draw
  draw-some shape w = rw known refl

  wrap_screen-Fits :
      (w₀ w : Writer)
      → Fits w₀ w
      → w.y_pos + 15 < usize_mod
      → (after : Writer) × (wrap_screen ink format w ≡ some after)
        × Fits w₀ after
        × (after.y_pos + 15 < height)
  unfolding wrap_screen
  wrap_screen-Fits w₀ w f room =
      let no_wrap : wrapping_add w.y_pos 15 ≡ w.y_pos + 15 = mod-eq_of_lt room in
      let on_screen = f.writing.on_screen in
      elim (Bool-cases (leb w.height (w.y_pos + 15))) [
        | inl full ↦ (
          record w { x_pos = 0; y_pos = 0; drawn = cleared ∷ w.drawn },
          rw (no_wrap, full) (draw-some cleared (record w { x_pos = 0; y_pos = 0 })),
          record {
            writing = record {
              on_screen = (on_screen.0, on_screen.1, on_screen.2, on_screen.3, (tt, on_screen.4));
              in_line = omega arith;
              follows = tt;
            };
            in_row = omega (arith, on_screen);
            above = omega arith;
            same = f.same;
          },
          omega (arith, on_screen),
        )
        | inr free ↦ (w, rw (no_wrap, free) refl, f, ground (arith, free, on_screen.1))
      ]

  -- The next character is on the screen, behind the others.
  record Wrote (bytes : List ℕ) (w after : Writer) : Type 0 where
    writing : IsWriting width height after
    above : after.y_pos ≤ w.y_pos + 15
    bytes_seen : shown after.drawn ≡ bytes

  put_lem :
      (byte : ℕ) (w₀ w : Writer)
      → Fits w₀ w
      → w.y_pos + 15 < height
      → (after : Writer) × (put ink format byte w ≡ some after)
        × Wrote (byte ∷ shown w₀.drawn) w₀ after
  unfolding put
  put_lem byte w₀ w f in_column =
      let no_wrap : wrapping_add w.x_pos 9 ≡ w.x_pos + 9 = mod-eq_of_lt (omega (arith, f.in_row)) in
      let on_screen = f.writing.on_screen in
      (
        record w { x_pos = w.x_pos + 9; drawn = character byte w.x_pos w.y_pos ∷ w.drawn },
        rw (draw-some (character byte w.x_pos w.y_pos) w, put, no_wrap) refl,
        record {
          writing = record {
            on_screen = (
              on_screen.0,
              on_screen.1,
              on_screen.2,
              on_screen.3,
              ((omega (arith, f.in_row), omega (arith, in_column)), on_screen.4),
            );
            in_line = omega (arith, f.in_row);
            follows = (inl (refl, omega arith), f.writing.follows);
          };
          above = f.above;
          bytes_seen = ap (◌∷◌ byte) f.same;
        },
      )

  write_byte-other :
      (byte : ℕ) (w : Writer)
      → byte ≢ 10
      → IsWriting width height w
      → w.y_pos + 30 < usize_mod
      → (after : Writer) × (write_byte ink format byte w ≡ some after)
        × Wrote (byte ∷ shown w.drawn) w after
  unfolding write_byte
  write_byte-other byte w printable h room =
      let line = wrap_line-Fits w h (omega (arith, room)) in
      let (ready, e, fits, in_column) =
        wrap_screen-Fits w (wrap_line w) line (omega (arith, room, line.above)) in
      let (after, e', wrote) = put_lem byte w ready fits in_column in
      let other : (byte == 10) ≡ false = ground arith in
      (after, rw (other, write_byte, e) e', wrote)

  write_byte-newline :
      (w : Writer)
      → IsWriting width height w
      → w.y_pos + 30 < usize_mod
      → Wrote (shown w.drawn) w (new_line w)
  unfolding new_line
  write_byte-newline w h room =
      let (writing, down) = new_line-IsWriting w h (omega (arith, room)) in
      record { writing = writing; above = omega (arith, down); bytes_seen = refl }

  write_char-Wrote :
      (byte : ℕ) (w : Writer)
      → byte ≢ 8
      → IsWriting width height w
      → w.y_pos + 30 < usize_mod
      → (after : Writer) × (write_char ink format byte w ≡ some after)
        × Wrote (spelled (byte ∷ []) (shown w.drawn)) w after
  unfolding write_char write_byte
  write_char-Wrote byte w no_backspace h room = elim (Bool-cases (byte == 10)) [
    | inl newline ↦
        let arm : (leb 32 byte && leb byte 126 || byte == 10) ≡ true = ground arith in
        (new_line w, rw (arm, newline) refl, rw newline (write_byte-newline w h room))
    | inr other ↦ elim (Bool-cases (leb 32 byte && leb byte 126)) [
      | inl printable ↦
          let (after, e, wrote) =
            write_byte-other byte w (λ n. absurd (ground (arith, n))) h room in
          (after, rw (printable, write_char) e, rw (other, printable) wrote)
      | inr strange ↦
          let not_8 : (byte == 8) ≡ false = ground arith in
          let (after, e, wrote) = write_byte-other 254 w (omega arith) h room in
          (after, rw (strange, other, not_8, write_char) e, rw (other, strange) wrote)
    ]
  ]

  spelled-first :
      (byte : ℕ) (bytes seen : List ℕ)
      → spelled bytes (spelled (byte ∷ []) seen) ≡ spelled (byte ∷ bytes) seen
  spelled-first byte bytes seen = elim (Bool-cases (byte == 10)) [
    | inl newline ↦ rw newline refl
    | inr other ↦ rw other refl
  ]

  -- The text is drawn in order, all of it on the screen and without overlap.
  pub write_string-visible :
      (bytes : List ℕ) (w : Writer)
      → All (λ b. b ≢ 8) bytes
      → IsWriting width height w
      → w.y_pos + 15 * suc (length bytes) < usize_mod
      → (after : Writer) × (write_string ink format bytes w ≡ some after)
        × IsWriting width height after
        × (shown after.drawn ≡ spelled bytes (shown w.drawn))
        × (after.y_pos ≤ w.y_pos + 15 * length bytes)
  unfolding write_string
  write_string-visible [] w no_backspace h room = (w, refl, h, refl, omega arith)
  write_string-visible (byte ∷ bytes) w (first, rest) h room =
      let (next, e, wrote) = write_char-Wrote byte w first h (omega (arith, room)) in
      let (after, e', writing, seen, low) =
        write_string-visible bytes next rest wrote.writing (omega (arith, room, wrote.above)) in
      (
        after,
        rw (e, write_string) e',
        writing,
        seen ∙ ap (spelled bytes) wrote.bytes_seen ∙ spelled-first byte bytes (shown w.drawn),
        omega (arith, low, wrote.above),
      )
