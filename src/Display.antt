-- ===== src/Display.antt =====
-- The screen: kernel/src/framebuffer.rs and the text writer of kernel/src/vga_buffer.rs.
pub mod Buffer
pub mod Framebuffer
pub mod Writer
pub mod Screen
pub mod Print
mod Tests
