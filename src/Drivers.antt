-- ===== src/Drivers.antt =====
-- kernel/drivers and kernel/gfx: the text console, the mouse and the framebuffer.
pub mod Vga
pub mod Mouse
pub mod Framebuffer
