-- ===== src/Drivers/Mouse.antt =====
-- kernel/drivers/mouse.c: the packets of the PS/2 mouse and the position on the screen. The GUI is told the
-- position; that call is not in the model.
pub mod Packets
use trade_kernel.Base.{
  ℕ, ◌+◌, ◌-◌, ℤ, pos, negsuc, ◌+ℤ◌, ◌-ℤ◌, ltb_ℤ, List, [], ◌∷◌, if◌then◌else◌, ltb, ◌==◌, test_bit,
  bit_and,
}

-- mouse_state_t, with mouse_cycle and the first two of mouse_bytes; the third byte of a packet is used at once. The
-- first is read by its low bits only and kept as the byte that came.
pub record Mouse : Type 0 where
  pub x : ℤ
  pub y : ℤ
  pub buttons : ℕ
  pub dx : ℤ
  pub dy : ℤ
  pub cycle : ℕ
  pub first : ℕ
  pub second : ℤ

abbrev pub width : ℕ
width = 320

abbrev pub height : ℕ
height = 200

-- A byte as an int8_t
unfoldable pub int8 : ℕ → ℤ
int8 byte = if ltb byte 128 then pos byte else negsuc (255 - byte)

-- What mouse_init sets; the cycle and the bytes of a packet are left as they are.
unfoldable pub mouse_reset : Mouse → Mouse
mouse_reset s = record s { x = pos 160; y = pos 100; buttons = 0; dx = pos 0; dy = pos 0 }

-- The two tests that keep a coordinate on the screen
abbrev pub clamp : ℕ → ℤ → ℤ
clamp bound v =
    let low = if ltb_ℤ v (pos 0) then pos 0 else v in
    if ltb_ℤ low (pos bound) then low else pos (bound - 1)

-- The end of a packet
unfoldable pub update_position : ℕ → Mouse → Mouse
update_position byte s = record s {
  x = clamp width (s.x +ℤ s.second);
  y = clamp height (s.y -ℤ int8 byte);
  buttons = bit_and s.first 7;
  dx = s.second;
  dy = int8 byte;
  cycle = 0;
}

unfoldable pub mouse_interrupt_handler : ℕ → Mouse → Mouse
mouse_interrupt_handler byte s =
    if s.cycle == 0
    then (if test_bit byte 3 then record s { first = byte; cycle = 1 } else s)
    else (if s.cycle == 1
        then record s { second = int8 byte; cycle = 2 }
        else (if s.cycle == 2 then update_position byte s else s))

-- The bytes of a stream, one interrupt each
unfoldable pub interrupts : List ℕ → Mouse → Mouse
interrupts [] s = s
interrupts (b ∷ bs) s = interrupts bs (mouse_interrupt_handler b s)
