-- ===== src/Drivers/Vga.antt =====
-- kernel/drivers/vga.c: the 80 by 25 text screen. The buffer is the list of its 2000 cells.
pub mod Scroll
pub mod Cursor
use trade_kernel.Base.{
  ℕ, zero, suc, ◌+◌, ◌-◌, ◌*◌, ◌/◌, ◌%◌, List, [], ◌∷◌, ltb, leb, ◌==◌, if◌then◌else◌, get_or, set,
  ◌&&◌, not,
}

abbrev pub vga_width : ℕ
vga_width = 80

abbrev pub vga_height : ℕ
vga_height = 25

pub record Vga : Type 0 where
  pub row : ℕ
  pub column : ℕ
  pub color : ℕ
  pub buffer : List ℕ

-- `fg | bg << 4` for colours below 16
unfoldable pub vga_entry_color : ℕ → ℕ → ℕ
vga_entry_color fg bg = (fg + bg * 16) % 256

-- `(uint16_t)uc | (uint16_t)color << 8`
unfoldable pub vga_entry : ℕ → ℕ → ℕ
vga_entry c color = c % 256 + color * 256

abbrev pub blank : Vga → ℕ
blank v = vga_entry 32 v.color

abbrev pub cell_index : ℕ → ℕ → ℕ
cell_index row column = row * vga_width + column

-- `n` cells from index `i` on are set to `c`.
unfoldable pub fill_cells : ℕ → ℕ → ℕ → List ℕ → List ℕ
fill_cells zero i c b = b
fill_cells (suc n) i c b = fill_cells n (suc i) c (set b i c)

-- The two loops of vga_clear and of vga_scroll visit the cells in the order of their indices.
unfoldable pub vga_clear : Vga → Vga
unfolding fill_cells
vga_clear v = record v {
  buffer = fill_cells (vga_width * vga_height) 0 (blank v) v.buffer;
  row = 0;
  column = 0;
}

unfoldable pub vga_init : Vga → Vga
unfolding vga_clear vga_entry_color
vga_init v = vga_clear (record v { row = 0; column = 0; color = vga_entry_color 7 0 })

unfoldable pub vga_set_color : ℕ → ℕ → Vga → Vga
vga_set_color fg bg v = record v { color = vga_entry_color fg bg }

unfoldable pub vga_set_cursor : ℕ → ℕ → Vga → Vga
vga_set_cursor x y v =
    if ltb x vga_width && ltb y vga_height then record v { column = x; row = y } else v

-- Move each cell up by one line: `n` rounds from destination `i` on.
unfoldable pub copy_up : ℕ → ℕ → List ℕ → List ℕ
copy_up zero i b = b
copy_up (suc n) i b = copy_up n (suc i) (set b i (get_or b (vga_width + i) 0))

abbrev pub last_line : ℕ
last_line = (vga_height - 1) * vga_width

unfoldable pub vga_scroll : Vga → Vga
vga_scroll v = record v {
  buffer = fill_cells vga_width last_line (blank v) (copy_up last_line 0 v.buffer);
  row = vga_height - 1;
  column = 0;
}

-- `vga_column = 0; if (++vga_row == VGA_HEIGHT) vga_scroll();`
unfoldable pub new_line : Vga → Vga
new_line v =
    let down = record v { column = 0; row = v.row + 1 } in
    if v.row + 1 == vga_height then vga_scroll down else down

-- The loop that looks for the last cell of the line that is not a space, from column `c` down.
unfoldable pub line_end : List ℕ → ℕ → ℕ → ℕ
line_end b row zero = 0
line_end b row (suc c) =
    let rest = line_end b row c in
    if not (get_or b (cell_index row (suc c)) 0 % 256 == 32) then suc (suc c) else rest

unfoldable pub backspace : Vga → Vga
unfolding line_end
backspace v =
    if ltb 0 v.column
    then record v {
      column = v.column - 1;
      buffer = set v.buffer (cell_index v.row (v.column - 1)) (blank v);
    }
    else (if ltb 0 v.row
        then record v { row = v.row - 1; column = line_end v.buffer (v.row - 1) (vga_width - 1) }
        else v)

unfoldable pub tab : Vga → Vga
tab v =
    let stop = (v.column + 8) / 8 * 8 in
    if leb vga_width stop then new_line v else record v { column = stop }

-- Any other character is written at the cursor.
unfoldable pub put_cell : ℕ → Vga → Vga
put_cell c v =
    let written = record v {
      buffer = set v.buffer (cell_index v.row v.column) (vga_entry c v.color);
      column = v.column + 1;
    } in
    if v.column + 1 == vga_width then new_line written else written

unfoldable pub vga_putchar : ℕ → Vga → Vga
vga_putchar c v =
    if c == 10
    then new_line v
    else (if c == 13
        then record v { column = 0 }
        else (if c == 8 then backspace v else (if c == 9 then tab v else put_cell c v)))

unfoldable pub vga_write_string : List ℕ → Vga → Vga
vga_write_string [] v = v
vga_write_string (c ∷ cs) v = vga_write_string cs (vga_putchar c v)
