-- ===== src/Display/Screen/Tests.antt =====
-- The set-up of a small screen whose memory starts inside a page.
use zoom_os.Prelude.{
  ℕ, ◌+◌, ◌%◌, ◌⊎◌, ◌≤◌, ◌<◌, ◌≡◌, ◌≢◌, ◌==◌, refl, List, [], ◌∷◌, Option, some, arith, ◌>>=◌,
  if◌then◌else◌,
}
use zoom_os.Memory.{page_size}
use zoom_os.Memory.Tests.{frames}
use zoom_os.Paging.{Flag, present}
use zoom_os.Paging.Sample.{Toy, toy, page_ranges, virt_addrs}
use zoom_os.Display.Buffer.{Buffer}
use zoom_os.Display.Framebuffer.{ℤ, bgr, unknown, FrameBufferInfo, Color, draw_pixel}
use zoom_os.Display.Writer.Visible.{IsOnScreen}
use zoom_os.Display.Screen.{FlagUpdates, screen_flags, new_writer, new_display, init}
use zoom_os.Display.Screen.Ready.{init-draw_pixel}

toy_update : ℕ → List Flag → Toy → Option Toy
toy_update page flags m = m.table page >>= λ entry.
    some (record m { table = λ q. if q == page then some (entry.0, flags) else m.table q })

toy_update-some :
    (page frame : ℕ) (old flags : List Flag) (m : Toy)
    → m.table page ≡ some (frame, old)
    → (m' : Toy) × (toy_update page flags m ≡ some m')
      × (m'.table page ≡ some (frame, flags))
      × ((q : ℕ) → q ≢ page → m'.table q ≡ m.table q)
unfolding toy_update
toy_update-some page frame old flags m e = (
  record m { table = λ q. if q == page then some (frame, flags) else m.table q },
  rw (e, toy_update) refl,
  ground arith,
  λ q other. ground arith,
)

abbrev toy_updates : FlagUpdates toy
toy_updates = record { update_flags = toy_update; update_flags-some = toy_update-some }

abbrev small : FrameBufferInfo
small = record { width = 25; height = 40; stride = 32; bytes_per_pixel = 4; pixel_format = bgr }

abbrev memory_at : ℕ
memory_at = 0xffff_9000_0000_0e00

-- Every page has the frame of its own address.
abbrev identity : Toy
identity = record { table = λ page. some (page, present ∷ []); next = 0; left = 0 }

bgr-known : bgr ≢ unknown
bgr-known e = cc

init-draw_pixel_example :
    (m' : Toy) × (init toy toy_updates virt_addrs frames page_ranges memory_at 5120 small identity
      ≡ some (m', new_writer small, new_display small))
    × ((p frame : ℕ) (old : List Flag)
        → p % page_size ≡ 0
        → memory_at < p + page_size
        → p < memory_at + 5120
        → identity.table p ≡ some (frame, old)
        → m'.table p ≡ some (frame, screen_flags))
    × ((q : ℕ)
        → q % page_size ≡ 0
        → (q + page_size ≤ memory_at) ⊎ (memory_at + 5120 ≤ q)
        → m'.table q ≡ identity.table q)
    × ((x y : ℤ) (color : Color)
        → (after : Buffer) × (draw_pixel small x y color (new_display small) ≡ some after))
    × IsOnScreen 25 40 (new_writer small)
init-draw_pixel_example =
    init-draw_pixel virt_addrs frames page_ranges memory_at 5120 (omega arith) (omega arith)
      (omega arith) toy toy_updates small identity (λ p aligned low high. (p, present ∷ [], refl))
      (omega arith) bgr-known (omega arith) (omega arith)
