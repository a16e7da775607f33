-- ===== src/Drivers/Vga/Cursor.antt =====
-- kernel/drivers/vga.c: where the cursor can be.
use trade_kernel.Base.{
  ℕ, zero, suc, ◌+◌, ◌-◌, ◌*◌, ◌/◌, ◌%◌, ◌≤◌, ◌<◌, ◌≡◌, ◌≢◌, ◌∙◌, ap, refl, inl, inr, true, List,
  length, ltb, leb, ◌==◌, get_or, set, length-set, arith, Bool-cases, ne→==, lt→ltb, ==→eq,
}
use trade_kernel.Drivers.Vga.{
  Vga, vga_width, vga_height, blank, vga_entry, cell_index, fill_cells, copy_up, last_line,
  vga_scroll, new_line, line_end, backspace, tab, put_cell, vga_putchar,
}

-- The cursor is on the screen, and the buffer has its 2000 cells.
pub record IsValid (v : Vga) : Type 0 where
  pub row_in : v.row < vga_height
  pub column_in : v.column < vga_width
  pub cells : length v.buffer ≡ vga_width * vga_height

length-fill_cells : (n i c : ℕ) (b : List ℕ) → length (fill_cells n i c b) ≡ length b
unfolding fill_cells
length-fill_cells zero i c b = refl
length-fill_cells (suc n) i c b = length-fill_cells n (suc i) c (set b i c) ∙ length-set b i c

length-copy_up : (n i : ℕ) (b : List ℕ) → length (copy_up n i b) ≡ length b
unfolding copy_up
length-copy_up zero i b = refl
length-copy_up (suc n) i b =
    length-copy_up n (suc i) (set b i (get_or b (80 + i) 0)) ∙ length-set b i _

new_line-IsValid :
    (v : Vga) → v.row < vga_height → length v.buffer ≡ vga_width * vga_height → IsValid (new_line v)
unfolding new_line vga_scroll
new_line-IsValid v r e = ground (
  arith,
  length-fill_cells vga_width last_line (blank v) (copy_up last_line 0 v.buffer),
  length-copy_up last_line 0 v.buffer,
)

put_cell-IsValid : (c : ℕ) (v : Vga) → IsValid v → IsValid (put_cell c v)
unfolding put_cell
put_cell-IsValid c v h = elim (Bool-cases (v.column + 1 == vga_width)) [
  | inl t ↦ rw (t, put_cell) (new_line-IsValid _ h.row_in (length-set v.buffer _ _ ∙ h.cells))
  | inr f ↦
      rw (f, put_cell)
        (record {
          row_in = h.row_in;
          column_in = ground (arith, h.column_in);
          cells = length-set v.buffer _ _ ∙ h.cells;
        })
]

tab-IsValid : (v : Vga) → IsValid v → IsValid (tab v)
unfolding tab
tab-IsValid v h = elim (Bool-cases (leb vga_width ((v.column + 8) / 8 * 8))) [
  | inl t ↦ rw (t, tab) (new_line-IsValid v h.row_in h.cells)
  | inr f ↦ rw (f, tab) (record { row_in = h.row_in; column_in = ground arith; cells = h.cells })
]

-- Every character but a backspace at the start of a line keeps the cursor on the screen.
pub vga_putchar-IsValid :
    (c : ℕ) (v : Vga) → (c ≡ 8 → 0 < v.column) → IsValid v → IsValid (vga_putchar c v)
unfolding vga_putchar backspace
vga_putchar-IsValid c v b h = elim (Bool-cases (c == 10)) [
  | inl t ↦ rw (t, vga_putchar) (new_line-IsValid v h.row_in h.cells)
  | inr f ↦ elim (Bool-cases (c == 13)) [
    | inl t ↦ ground (arith, h.row_in, h.cells)
    | inr g ↦ elim (Bool-cases (c == 8)) [
      | inl t ↦
          let l : ltb 0 v.column ≡ true = lt→ltb 0 v.column (b (==→eq c 8 t)) in
          rw (f, g, t, vga_putchar, l, backspace)
            (record {
              row_in = h.row_in;
              column_in = omega (arith, h.column_in);
              cells = length-set v.buffer _ _ ∙ h.cells;
            })
      | inr k ↦ elim (Bool-cases (c == 9)) [
        | inl t ↦ rw (f, g, k, t, vga_putchar) (tab-IsValid v h)
        | inr l ↦ rw (f, g, k, l, vga_putchar) (put_cell-IsValid c v h)
      ]
    ]
  ]
]

printable : (c : ℕ) (v : Vga) → 32 ≤ c → vga_putchar c v ≡ put_cell c v
unfolding vga_putchar
printable c v p = ground arith

-- A backspace at the start of a line, with a character in the last column of the line above, puts
-- the cursor at column 80, off the screen; the next printable character is then written into the
-- line below, and the cursor goes on to column 81.
pub backspace_off_screen :
    (c : ℕ) (v : Vga)
    → v.column ≡ 0
    → 0 < v.row
    → get_or v.buffer (cell_index (v.row - 1) (vga_width - 1)) 0 % 256 ≢ 32
    → 32 ≤ c
    → let w = vga_putchar 8 v in
      let x = vga_putchar c w in
      (w.column ≡ vga_width)
      × ¬ IsValid w
      × (x.column ≡ vga_width + 1)
      × (x.buffer ≡ set v.buffer (cell_index v.row 0) (vga_entry c v.color))
unfolding vga_putchar backspace line_end put_cell
backspace_off_screen c v e r n p =
    rw (back, printable c (record v { row = v.row - 1; column = 80 }) p, put_cell)
      (
        refl,
        λ h. absurd (omega (arith, h.column_in)),
        refl,
        ap (λ i. set v.buffer i (vga_entry c v.color)) same,
      )
  where
    same : (v.row - 1) * 80 + 80 ≡ v.row * 80 + 0
    same = omega arith

    back : backspace v ≡ record v { row = v.row - 1; column = 80 }
    back =
        let filled = ne→== (get_or v.buffer (cell_index (v.row - 1) 79) 0 % 256) 32 n in
        rw (e, lt→ltb 0 v.row r, filled)
