-- ===== src/Display/Print/Shown.antt =====
-- What a print of kernel/src/vga_buffer.rs shows.
use zoom_os.Prelude.{ℕ, ◌≡◌, some, List, [], ◌∷◌, ◌++◌}
use zoom_os.Display.Writer.{Writer}
use zoom_os.Display.Writer.Visible.{IsWriting, shown, spelled}
use zoom_os.Display.Print.{Console, Pieces, Print}

-- The pieces of a text as one.
abbrev pub joined : Pieces → List ℕ
joined [] = []
joined (bytes ∷ pieces) = bytes ++ joined pieces

-- The text is on the screen, in order, and the display is free again.
abbrev pub IsPrinted : ℕ → ℕ → Pieces → Writer → Console → Console → Type 0
IsPrinted width height pieces w c after =
    (written : Writer) × (after ≡ record c { writer = some written; frames = written ∷ c.frames })
    × IsWriting width height written
    × (shown written.drawn ≡ spelled (joined pieces) (shown w.drawn))
