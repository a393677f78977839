-- ===== src/Display/Framebuffer.antt =====
-- `Display` of kernel/src/framebuffer.rs: the back buffer, in which all drawing is done, and its copy
-- to the screen. Products of coordinates are bounded by the length of the buffer, and do not wrap.
pub mod Offsets
pub mod Pixels
pub mod Fill
pub mod Frame
use zoom_os.Prelude.{
  ℕ, zero, suc, ◌+◌, ◌-◌, ◌*◌, ◌/◌, ◌%◌, Bool, true, false, ◌&&◌, Option, none, some, ltb, ◌==◌,
  if◌then◌else◌, ◌>>=◌,
}
use zoom_os.Word.{usize_mod}
use zoom_os.Display.Buffer.{Buffer, set_byte, copy_rows}

-- An i32, by the constructors of the library's integers.
pub data ℤ : Type 0 where
  pos : ℕ → ℤ
  negsuc : ℕ → ℤ

-- `as usize`
unfoldable pub as_usize : ℤ → ℕ
as_usize (pos n) = n
as_usize (negsuc n) = usize_mod - 1 - n

pub data PixelFormat : Type 0 where
  rgb : PixelFormat
  bgr : PixelFormat
  u8 : PixelFormat
  unknown : PixelFormat

pub record FrameBufferInfo : Type 0 where
  pub width : ℕ
  pub height : ℕ
  pub stride : ℕ
  pub bytes_per_pixel : ℕ
  pub pixel_format : PixelFormat

pub record Color : Type 0 where
  pub red : ℕ
  pub green : ℕ
  pub blue : ℕ

unfoldable pub gray : Color → ℕ
gray c = c.red / 3 + c.green / 3 + c.blue / 3

-- Three bytes written by index.
unfoldable pub set_three : ℕ → ℕ → ℕ → ℕ → Buffer → Option Buffer
set_three offset a b c buffer = set_byte offset a buffer >>= λ one.
    set_byte (offset + 1) b one >>= λ two. set_byte (offset + 2) c two

unfoldable pub set_pixel : PixelFormat → ℕ → Color → Buffer → Option Buffer
set_pixel rgb offset c buffer = set_three offset c.red c.green c.blue buffer
set_pixel bgr offset c buffer = set_three offset c.blue c.green c.red buffer
set_pixel u8 offset c buffer = set_byte offset (gray c) buffer
set_pixel unknown offset c buffer = none

unfoldable pub byte_offset : FrameBufferInfo → ℕ → ℕ → ℕ
byte_offset info x y = (y * info.width + x) * info.bytes_per_pixel

-- `none` is a panic, here and below.
unfoldable pub draw_pixel : FrameBufferInfo → ℤ → ℤ → Color → Buffer → Option Buffer
draw_pixel info x y color backbuffer =
    if ltb (as_usize x) info.width && ltb (as_usize y) info.height
    then set_pixel info.pixel_format (byte_offset info (as_usize x) (as_usize y)) color backbuffer
    else some backbuffer

-- Byte `i` of a row of u32 numbers, which the processor stores with the lowest byte first. The
-- shifted channels do not overlap, so that `|` adds them.
unfoldable pub word_byte : ℕ → ℕ → ℕ
word_byte word zero = word % 256
word_byte word (suc zero) = word / 256 % 256
word_byte word (suc (suc zero)) = word / 65536 % 256
word_byte word (suc (suc (suc i))) = word / 16777216 % 256

unfoldable pub words : ℕ → ℕ → ℕ → ℕ → ℕ
words low middle high i = word_byte (low + middle * 256 + high * 65536) (i % 4)

-- The row of pixels that `fill_solid` and `clear` copy, with their assertions.
unfoldable pub wide : FrameBufferInfo → Color → PixelFormat → Option (ℕ → ℕ)
wide info c rgb = if info.bytes_per_pixel == 4 then some (words c.red c.green c.blue) else none
wide info c bgr = if info.bytes_per_pixel == 4 then some (words c.blue c.green c.red) else none
wide info c u8 = if info.bytes_per_pixel == 1 then some (λ i. gray c) else none
wide info c unknown = none

unfoldable pub clear : FrameBufferInfo → Color → Buffer → Option Buffer
clear info color backbuffer = wide info color info.pixel_format >>= λ row.
    copy_rows info.height (info.width * info.bytes_per_pixel) (λ y. row)
      (λ y. y * info.width * info.bytes_per_pixel) backbuffer

-- The part of a rectangle that lies on the screen, which the graphics library computes; it is all
-- zeros where there is none.
pub record Area : Type 0 where
  pub x : ℕ
  pub y : ℕ
  pub columns : ℕ
  pub rows : ℕ

unfoldable pub is_zero : Area → Bool
is_zero a = (a.x == 0) && ((a.y == 0) && ((a.columns == 0) && (a.rows == 0)))

unfoldable pub fill_solid : FrameBufferInfo → Area → Color → Buffer → Option Buffer
fill_solid info intersection color backbuffer =
    if is_zero intersection
    then some backbuffer
    else wide info color info.pixel_format >>= λ row.
        copy_rows intersection.rows (intersection.columns * info.bytes_per_pixel) (λ y. row)
          (λ y. ((intersection.y + y) * info.width + intersection.x) * info.bytes_per_pixel)
          backbuffer

-- The copy of each row to the screen, whose rows may be longer.
unfoldable pub draw_frame : FrameBufferInfo → Buffer → Buffer → Option Buffer
draw_frame info backbuffer framebuffer =
    copy_rows info.height (info.width * info.bytes_per_pixel)
      (λ y i. backbuffer.bytes (y * info.width * info.bytes_per_pixel + i))
      (λ y. y * info.stride * info.bytes_per_pixel) framebuffer
