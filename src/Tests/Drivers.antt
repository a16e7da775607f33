-- ===== src/Tests/Drivers.antt =====
-- kernel/drivers/vga.c: a screen with the cursor in the last cell.
use trade_kernel.Base.{ℕ, replicate, length-replicate, arith}
use trade_kernel.Drivers.Vga.{Vga, vga_putchar}
use trade_kernel.Drivers.Vga.Cursor.{IsValid, vga_putchar-IsValid}

abbrev screen : Vga
screen = record { row = 24; column = 79; color = 7; buffer = replicate 2000 1888 }

screen-IsValid : IsValid screen
screen-IsValid = record {
  row_in = omega arith;
  column_in = omega arith;
  cells = length-replicate {A = ℕ} 2000 1888;
}

vga_putchar-IsValid_example : IsValid (vga_putchar 65 screen)
vga_putchar-IsValid_example = vga_putchar-IsValid 65 screen (λ e. omega arith) screen-IsValid
