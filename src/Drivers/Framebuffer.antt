-- ===== src/Drivers/Framebuffer.antt =====
-- kernel/gfx/framebuffer.c: the linear framebuffer of 8 bits a pixel. `memory` is what lies from phys_addr on; a write
-- behind its end is not in the model.
pub mod Rectangles
use trade_kernel.Base.{
  ℕ, zero, suc, ◌+◌, ◌-◌, ◌*◌, ◌/◌, ◌%◌, min, Bool, true, false, not, ◌&&◌, ◌||◌, List,
  if◌then◌else◌, ltb, leb, ◌==◌, get_or, set, add32, mul32,
}

-- fb_backend_t
pub data Backend : Type 0 where
  fb_backend_none fb_backend_linear fb_backend_mode13 : Backend

-- framebuffer_info_t, and the pixels
pub record Framebuffer : Type 0 where
  pub available : Bool
  pub backend : Backend
  pub phys_addr : ℕ
  pub width : ℕ
  pub height : ℕ
  pub pitch : ℕ
  pub bpp : ℕ
  pub memory : List ℕ

unfoldable pub fb_init_scaffold : Framebuffer → Framebuffer
fb_init_scaffold s = record s {
  available = false;
  backend = fb_backend_none;
  phys_addr = 0;
  width = 0;
  height = 0;
  pitch = 0;
  bpp = 0;
}

unfoldable pub fb_register_linear_framebuffer : ℕ → ℕ → ℕ → ℕ → ℕ → Framebuffer → Framebuffer
fb_register_linear_framebuffer phys_addr width height pitch bpp s = record s {
  available = true;
  backend = fb_backend_linear;
  phys_addr = phys_addr;
  width = width;
  height = height;
  pitch = pitch;
  bpp = bpp;
}

unfoldable pub fb_try_enable_mode13_scaffold : Framebuffer → Framebuffer
fb_try_enable_mode13_scaffold s = record s {
  available = true;
  backend = fb_backend_mode13;
  phys_addr = 655360;
  width = 320;
  height = 200;
  pitch = 320;
  bpp = 8;
}

abbrev pub fb_is_available : Framebuffer → ℕ
fb_is_available s = if s.available then 1 else 0

-- `!g_fb_info.available || g_fb_info.bpp != 8`
abbrev pub is_unusable : Framebuffer → Bool
is_unusable s = not s.available || not (s.bpp == 8)

-- The place of a pixel
abbrev pub offset : Framebuffer → ℕ → ℕ → ℕ
offset s x y = add32 (mul32 y s.pitch) x

abbrev pub put : Framebuffer → ℕ → ℕ → ℕ → Framebuffer
put s x y color = record s { memory = set s.memory (offset s x y) (color % 256) }

unfoldable pub fb_putpixel : ℕ → ℕ → ℕ → Framebuffer → Framebuffer
fb_putpixel x y color s =
    if is_unusable s || (leb s.width x || leb s.height y) then s else put s x y color

-- `n` pixels of a row from `x` on, each given to `plot`
unfoldable pub each_in_row :
    (ℕ → ℕ → Framebuffer → Framebuffer) → ℕ → ℕ → ℕ → Framebuffer → Framebuffer
each_in_row plot zero x y s = s
each_in_row plot (suc n) x y s = each_in_row plot n (x + 1) y (plot x y s)

unfoldable pub each_row :
    (ℕ → ℕ → Framebuffer → Framebuffer) → ℕ → ℕ → ℕ → ℕ → Framebuffer → Framebuffer
each_row plot zero n x y s = s
each_row plot (suc rows) n x y s = each_row plot rows n x (y + 1) (each_in_row plot n x y s)

unfoldable pub fb_clear : ℕ → Framebuffer → Framebuffer
fb_clear color s =
    if is_unusable s then s else each_row (λ x y t. put t x y color) s.height s.width 0 0 s

unfoldable pub fb_fill_rect : ℕ → ℕ → ℕ → ℕ → ℕ → Framebuffer → Framebuffer
fb_fill_rect x y width height color s =
    let x_end = min (add32 x width) s.width in
    let y_end = min (add32 y height) s.height in
    if is_unusable s
    then s
    else each_row (λ px py t. fb_putpixel px py color t) (y_end - y) (x_end - x) x y s

unfoldable pub fb_demo_gradient : Framebuffer → Framebuffer
fb_demo_gradient s =
    let gradient : ℕ → ℕ → ℕ = λ x y. add32 (mul32 x 32 / s.width) (mul32 y 8 / s.height) % 256 in
    let drawn = each_row (λ x y t. fb_putpixel x y (gradient x y) t) s.height s.width 0 0 s in
    if is_unusable s then s else fb_fill_rect 30 30 80 10 10 (fb_fill_rect 20 20 100 30 60 drawn)
