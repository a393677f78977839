-- ===== src/Display/Screen.antt =====
-- `init` of kernel/src/framebuffer.rs: the flags of the screen's pages, the text writer and the
-- display. The cells that keep the last two, and the lock of the mapper, are left out.
pub mod Ready
mod Tests
use zoom_os.Prelude.{
  ℕ, ◌*◌, ◌≡◌, ◌≢◌, List, [], ◌∷◌, Option, none, some, ◌==◌, if◌then◌else◌, ◌>>=◌,
}
use zoom_os.Memory.{Frames, page_size}
use zoom_os.Paging.{
  Addresses, PageRanges, Mapper, Flag, present, writable, no_cache, write_through, no_execute,
  for_each,
}
use zoom_os.Display.Buffer.{Buffer}
use zoom_os.Display.Framebuffer.{FrameBufferInfo}
use zoom_os.Display.Writer.{Writer}

-- `Mapper::update_flags`: a mapped page keeps its frame, and the other pages stay as they are.
pub record FlagUpdates (mapper : Mapper) : Type 0 where
  pub update_flags : ℕ → List Flag → mapper.Machine → Option mapper.Machine
  pub update_flags-some :
      (page frame : ℕ) (old flags : List Flag) (m : mapper.Machine)
      → mapper.frame_of m page ≡ some (frame, old)
      → (m' : mapper.Machine) × (update_flags page flags m ≡ some m')
        × (mapper.frame_of m' page ≡ some (frame, flags))
        × ((q : ℕ) → q ≢ page → mapper.frame_of m' q ≡ mapper.frame_of m q)

-- `PRESENT | WRITABLE | NO_EXECUTE | WRITE_THROUGH | NO_CACHE`
abbrev pub screen_flags : List Flag
screen_flags = present ∷ writable ∷ no_execute ∷ write_through ∷ no_cache ∷ []

-- `Writer::new`
unfoldable pub new_writer : FrameBufferInfo → Writer
new_writer info = record {
  width = info.width;
  height = info.height;
  stride = info.stride;
  x_pos = 0;
  y_pos = 0;
  drawn = [];
}

-- `Display::new`
unfoldable pub new_display : FrameBufferInfo → Buffer
new_display info = record { len = info.width * info.height * info.bytes_per_pixel; bytes = λ i. 0 }

-- `page_range`, for the address and the length of the screen's memory; `buffer[0]` panics (`none`)
-- where there is none.
unfoldable pub screen_pages : Addresses → Frames → PageRanges → ℕ → ℕ → Option (List ℕ)
screen_pages addresses frames ranges start len = if len == 0 then none else do
  region_start ← addresses.new start
  sum ← addresses.plus region_start len
  region_end ← addresses.minus sum 1
  some (
      ranges.range (frames.containing_address page_size region_start)
        (frames.containing_address page_size region_end))

module _ (mapper : Mapper) (updates : FlagUpdates mapper) where
  unfoldable pub flag_page : ℕ → mapper.Machine → Option mapper.Machine
  flag_page page m = updates.update_flags page screen_flags m

  unfoldable pub init :
      Addresses
      → Frames
      → PageRanges
      → ℕ
      → ℕ
      → FrameBufferInfo
      → mapper.Machine
      → Option (mapper.Machine × Writer × Buffer)
  init addresses frames ranges start len info m = do
    page_range ← screen_pages addresses frames ranges start len
    m ← for_each flag_page page_range m
    some (m, new_writer info, new_display info)
