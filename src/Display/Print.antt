-- ===== src/Display/Print.antt =====
-- `_print` of kernel/src/vga_buffer.rs: the writer draws into the display, whose lock is tried. The
-- lock of the writer is taken under that of the display only, and is left out; on x86_64 the exchange
-- of `try_lock` does not fail for no reason.
pub mod Shown
use zoom_os.Prelude.{
  ℕ, zero, suc, Bool, false, true, not, Option, none, some, List, [], ◌∷◌, if◌then◌else◌, ◌>>=◌,
}
use zoom_os.Display.Framebuffer.{PixelFormat}
use zoom_os.Display.Writer.{Drawn, Writer, write_string}

-- The interrupt flag, `WRITER`, `DISPLAY` with its lock, `SHOULD_USE_SCREEN`, the frames that were
-- drawn, by what the writer has drawn until then, and how many warnings there were.
pub record Console : Type 0 where
  pub interrupts : Bool
  pub writer : Option Writer
  pub display_init : Bool
  pub display_locked : Bool
  pub should_use_screen : Bool
  pub frames : List Writer
  pub warnings : ℕ

-- `write_fmt` gives a text in pieces.
abbrev pub Pieces : Type 0
Pieces = List (List ℕ)

-- A call of `_print`; `none` is a panic, or that it does not return.
abbrev pub Print : Type 0
Print = Pieces → Console → Option Console

unfoldable pub print_each : Print → List Pieces → Console → Option Console
print_each print [] c = some c
print_each print (text ∷ texts) c = print text c >>= print_each print texts

module _ (ink : Drawn → Bool) (format : PixelFormat) where
  unfoldable pub write_pieces : Pieces → Writer → Option Writer
  write_pieces [] w = some w
  write_pieces (bytes ∷ pieces) w =
      write_string ink format bytes w >>= λ after. write_pieces pieces after

  -- The display's guard is dropped behind the frame.
  unfoldable pub draw_text : Pieces → Writer → Console → Option Console
  draw_text pieces w c = do
    written ← write_pieces pieces w
    some (record c { writer = some written; frames = written ∷ c.frames; display_locked = false })

  -- `tag` and `more` are the texts in which the subscriber of tracer.rs prints the event of `warn!`,
  -- each with `vga_print!` where the screen is used.
  module _ (tag : Pieces) (more : List Pieces) where
    unfoldable pub warn : Print → Console → Option Console
    warn print c =
        let warned : Console = record c { warnings = suc c.warnings } in
        if c.should_use_screen then print_each print (tag ∷ more) warned else some warned

    unfoldable pub print_to : Print → Pieces → Option Writer → Console → Option Console
    print_to print pieces none c = some c
    print_to print pieces (some w) c =
        if not c.display_init
        then none
        else if c.display_locked
        then warn print c
        else draw_text pieces w (record c { display_locked = true })

    unfoldable pub print_with : Print → Print
    print_with print pieces c = do
      after ← print_to print pieces c.writer (record c { interrupts = false })
      some (record after { interrupts = c.interrupts })

    -- The number bounds the prints that stand in each other.
    unfoldable pub print : ℕ → Print
    print zero = print_with (λ pieces c. none)
    print (suc depth) = print_with (print depth)
