-- ===== src/Tests/Screen.antt =====
-- kernel/drivers/mouse.c and kernel/gfx/framebuffer.c: a packet behind noise, and a rectangle over the edge.
use trade_kernel.Base.{
  pos, ◌+◌, ◌%◌, ◌≡◌, true, false, [], ◌∷◌, replicate, refl, arith, test_bit, if◌then◌else◌, leb,
  ltb, ◌&&◌,
}
use trade_kernel.Drivers.Mouse.{Mouse, interrupts}
use trade_kernel.Drivers.Mouse.Packets.{
  IsOnScreen, at, step_forth, step_back, interrupts-IsOnScreen, interrupts-update_position,
}
use trade_kernel.Drivers.Framebuffer.{Framebuffer, fb_backend_linear, fb_fill_rect}
use trade_kernel.Drivers.Framebuffer.Rectangles.{HasSize, pixel, fb_fill_rect-pixel}

abbrev mouse : Mouse
mouse = record {
  x = pos 160;
  y = pos 100;
  buttons = 0;
  dx = pos 0;
  dy = pos 0;
  cycle = 0;
  first = 0;
  second = pos 0;
}

mouse-IsOnScreen : IsOnScreen mouse
mouse-IsOnScreen = record {
  x = at 160 refl (omega arith);
  y = at 100 refl (omega arith);
  cycle = omega arith;
}

interrupts-IsOnScreen_example : IsOnScreen (interrupts (9 ∷ 200 ∷ 127 ∷ []) mouse)
interrupts-IsOnScreen_example = interrupts-IsOnScreen (9 ∷ 200 ∷ 127 ∷ []) mouse mouse-IsOnScreen

clear : test_bit 7 3 ≡ false
unfolding test_bit
clear = refl

set_bit_3 : test_bit 9 3 ≡ true
unfolding test_bit
set_bit_3 = refl

interrupts-update_position_example :
    (t : Mouse) × (interrupts (7 ∷ 9 ∷ 200 ∷ 127 ∷ []) mouse ≡ interrupts [] t)
    × (t.buttons ≡ 9 % 8)
    × (t.x ≡ pos (step_forth 320 160 200))
    × (t.y ≡ pos (step_back 200 100 127))
    × (t.cycle ≡ 0)
interrupts-update_position_example =
    interrupts-update_position (7 ∷ []) 9 200 127 160 100 [] mouse refl refl refl (omega arith)
      (omega arith) (omega arith) (omega arith) (clear, tt) set_bit_3

abbrev small_screen : Framebuffer
small_screen = record {
  available = true;
  backend = fb_backend_linear;
  phys_addr = 4096;
  width = 3;
  height = 2;
  pitch = 4;
  bpp = 8;
  memory = replicate 8 0;
}

small_screen-HasSize : HasSize 3 2 4 small_screen
small_screen-HasSize = record {
  usable = ground arith;
  width_is = refl;
  height_is = refl;
  pitch_is = refl;
  narrow = omega arith;
  room = omega arith;
  small = omega arith;
}

fb_fill_rect-pixel_example : pixel 4 (fb_fill_rect 1 1 10 10 300 small_screen) 2 1 ≡ (
    if leb 1 2 && ltb 2 (1 + 10) && leb 1 1 && ltb 1 (1 + 10)
    then 300 % 256
    else pixel 4 small_screen 2 1)
fb_fill_rect-pixel_example =
    fb_fill_rect-pixel 3 2 4 1 1 10 10 300 small_screen 2 1 small_screen-HasSize (omega arith)
      (omega arith) (omega arith) (omega arith)
