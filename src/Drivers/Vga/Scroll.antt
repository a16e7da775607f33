-- ===== src/Drivers/Vga/Scroll.antt =====
-- kernel/drivers/vga.c: what the two loops of vga_scroll do to the screen.
use trade_kernel.Base.{
  ℕ, zero, suc, ◌+◌, ◌*◌, ◌≤◌, ◌≡◌, ◌∙◌, refl, List, [], ◌∷◌, length, ltb, leb, ◌&&◌, ◌==◌,
  if◌then◌else◌, get_or, set, get_or-set_self, get_or-set_ne, length-set, arith, Bool-cases, inl,
  inr,
}
use trade_kernel.Drivers.Vga.{
  Vga, vga_width, vga_height, blank, fill_cells, copy_up, last_line, vga_scroll,
}

-- The cells that `fill_cells` sets, and those that it leaves.
get_or-fill_cells :
    (n i c k : ℕ) (b : List ℕ)
    → i + n ≤ length b
    → get_or (fill_cells n i c b) k 0 ≡ (if leb i k && ltb k (i + n) then c else get_or b k 0)
unfolding fill_cells
get_or-fill_cells zero i c k b h = ground arith
get_or-fill_cells (suc n) i c k b h = elim (Bool-cases (i == k)) [
  | inl e ↦ ground (
    arith,
    get_or-fill_cells n (suc i) c k (set b i c),
    get_or-set_self b i c 0,
    length-set b i c,
  )
  | inr f ↦ ground (
    arith,
    get_or-fill_cells n (suc i) c k (set b i c),
    get_or-set_ne b i k c 0,
    length-set b i c,
  )
]

length-copy_up : (n i : ℕ) (b : List ℕ) → length (copy_up n i b) ≡ length b
unfolding copy_up
length-copy_up zero i b = refl
length-copy_up (suc n) i b =
    length-copy_up n (suc i) (set b i (get_or b (80 + i) 0)) ∙ length-set b i _

get_or_beyond : (b : List ℕ) (k : ℕ) → length b ≤ k → get_or b k 0 ≡ 0
get_or_beyond [] k h = refl
get_or_beyond (x ∷ xs) zero h = absurd (omega arith)
get_or_beyond (x ∷ xs) (suc k) h = get_or_beyond xs k (omega arith)

get_or-copy_up :
    (n i k : ℕ) (b : List ℕ)
    → i + n ≤ length b
    → get_or (copy_up n i b) k 0
      ≡ (if leb i k && ltb k (i + n) then get_or b (vga_width + k) 0 else get_or b k 0)
unfolding copy_up
get_or-copy_up zero i k b h = ground arith
get_or-copy_up (suc n) i k b h =
    let b' = set b i (get_or b (80 + i) 0) in
    let ih = get_or-copy_up n (suc i) k b' (omega (arith, length-set b i (get_or b (80 + i) 0))) in
    elim (Bool-cases (i == k)) [
      | inl e ↦ ground (arith, ih, get_or-set_self b i (get_or b (80 + i) 0) 0)
      | inr f ↦ elim (Bool-cases (ltb i k)) [
        | inl l ↦ ground (
          arith,
          ih,
          get_or-set_ne b i k (get_or b (80 + i) 0) 0,
          get_or-set_ne b i (80 + k) (get_or b (80 + i) 0) 0,
        )
        | inr g ↦ ground (arith, ih, get_or-set_ne b i k (get_or b (80 + i) 0) 0)
      ]
    ]

-- After vga_scroll each cell of the upper 24 lines holds what the cell below it held, and the cells
-- of the last line are blank.
pub vga_scroll-cells :
    (v : Vga) (k : ℕ)
    → length v.buffer ≡ vga_width * vga_height
    → get_or (vga_scroll v).buffer k 0 ≡ (
        if ltb k last_line
        then get_or v.buffer (vga_width + k) 0
        else (if ltb k (vga_width * vga_height) then blank v else 0))
unfolding vga_scroll
vga_scroll-cells v k h = ground (
  arith,
  get_or-fill_cells vga_width last_line (blank v) k (copy_up last_line 0 v.buffer),
  length-copy_up last_line 0 v.buffer,
  get_or-copy_up last_line 0 k v.buffer,
  get_or_beyond v.buffer k,
)
