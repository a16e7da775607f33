-- ===== src/Drivers/Framebuffer/Rectangles.antt =====
-- kernel/gfx/framebuffer.c: the pixels after fb_putpixel and fb_fill_rect.
use native.Mathlib.Nat.{mul-le-mul_right}
use trade_kernel.Base.{
  ℕ, zero, suc, ◌+◌, ◌-◌, ◌*◌, ◌%◌, ◌^◌, ◌<◌, ◌≤◌, min, ◌≡◌, ◌≢◌, ◌∙◌, refl, sym, ap, inl, inr,
  Bool, false, ◌&&◌, ◌||◌, if◌then◌else◌, ltb, leb, ◌==◌, ==→eq, Bool-cases, get_or, length,
  length-set, get_or-set_self, get_or-set_ne, add32, arith,
}
use trade_kernel.Drivers.Framebuffer.{
  Framebuffer, is_unusable, offset, put, fb_putpixel, each_in_row, each_row, fb_fill_rect,
}

-- A usable framebuffer of this size, whose memory holds all its rows
pub record HasSize (width height pitch : ℕ) (s : Framebuffer) : Type 0 where
  pub usable : is_unusable s ≡ false
  pub width_is : s.width ≡ width
  pub height_is : s.height ≡ height
  pub pitch_is : s.pitch ≡ pitch
  pub narrow : width ≤ pitch
  pub room : height * pitch ≤ length s.memory
  pub small : height * pitch < 2 ^ 32

-- What is seen at a place
abbrev pub pixel : ℕ → Framebuffer → ℕ → ℕ → ℕ
pixel pitch s x y = get_or s.memory (y * pitch + x) 0

row_end : (y h p : ℕ) → y < h → y * p + p ≤ h * p
row_end y h p l = let m : (y + 1) * p ≤ h * p = mul-le-mul_right p (omega arith) in omega (arith, m)

place_unique : (p x y a b : ℕ) → x < p → a < p → y * p + x ≡ b * p + a → (x ≡ a) × (y ≡ b)
place_unique p x y a b l m e = elim (Bool-cases (y == b)) [
  | inl q ↦ let r : y ≡ b = ==→eq y b q in (omega (arith, ap (λ t. t * p) r), r)
  | inr q ↦ elim (Bool-cases (ltb y b)) [
    | inl s ↦ absurd (let k : y < b = ground arith in omega (arith, row_end y b p k))
    | inr s ↦ absurd (let k : b < y = ground arith in omega (arith, row_end b y p k))
  ]
]

module _ (w h p : ℕ) (color : ℕ) where
  abbrev plot : ℕ → ℕ → Framebuffer → Framebuffer
  plot x y t = fb_putpixel x y color t

  offset_in :
      (x y : ℕ) (s : Framebuffer) → HasSize w h p s → x < w → y < h → offset s x y ≡ y * p + x
  offset_in x y s f l m =
      let e : s.pitch ≡ p = f.pitch_is in
      let r = row_end y h p m in let n = f.narrow in let k = f.small in rw e (omega arith)

  put-HasSize : (x y : ℕ) (s : Framebuffer) → HasSize w h p s → HasSize w h p (put s x y color)
  put-HasSize x y s f = record {
    usable = f.usable;
    width_is = f.width_is;
    height_is = f.height_is;
    pitch_is = f.pitch_is;
    narrow = f.narrow;
    room = let r = f.room in omega (arith, length-set s.memory (offset s x y) (color % 256));
    small = f.small;
  }

  putpixel_in :
      (x y : ℕ) (s : Framebuffer)
      → HasSize w h p s
      → x < w
      → y < h
      → fb_putpixel x y color s ≡ put s x y color
  unfolding fb_putpixel
  putpixel_in x y s f l m =
      let a = f.width_is in
      let b = f.height_is in
      let g : (leb s.width x || leb s.height y) ≡ false = ground arith in rw (f.usable, g) refl

  pixel-put :
      (x y a b : ℕ) (s : Framebuffer)
      → HasSize w h p s
      → x < w
      → y < h
      → a < w
      → pixel p (put s x y color) a b ≡ (if a == x && b == y then color % 256 else pixel p s a b)
  pixel-put x y a b s f l m k =
      let n = f.narrow in
      let o = offset_in x y s f l m in
      elim (Bool-cases (a == x && b == y)) [
        | inl e ↦
            let q : a ≡ x = ground arith in
            let r : b ≡ y = ground arith in
            let i : offset s x y ≡ b * p + a = omega (arith, o, ap (λ t. t * p) r) in
            let inside : b * p + a < length s.memory =
              omega (arith, row_end y h p m, f.room, ap (λ t. t * p) r) in
            rw (e, i) (get_or-set_self s.memory (b * p + a) (color % 256) 0 inside)
        | inr e ↦
            let apart : offset s x y ≢ b * p + a = λ i.
              let (q, r) = place_unique p a b x y (omega arith) (omega arith) (sym i ∙ o) in
              ground arith in
            rw e (get_or-set_ne s.memory (offset s x y) (b * p + a) (color % 256) 0 apart)
      ]

  -- Whether a place is among `n` places of a row, and in a rectangle of rows
  abbrev in_row : ℕ → ℕ → ℕ → ℕ → ℕ → Bool
  in_row n x y a b = leb x a && ltb a (x + n) && b == y

  abbrev in_rows : ℕ → ℕ → ℕ → ℕ → ℕ → ℕ → Bool
  in_rows rows n x y a b = leb x a && ltb a (x + n) && leb y b && ltb b (y + rows)

  row_lem :
      (n x y : ℕ) (s : Framebuffer)
      → HasSize w h p s
      → (0 < n → x + n ≤ w)
      → y < h
      → HasSize w h p (each_in_row plot n x y s)
        × ((a b : ℕ)
            → a < w
            → pixel p (each_in_row plot n x y s) a b
              ≡ (if in_row n x y a b then color % 256 else pixel p s a b))
  unfolding each_in_row
  row_lem zero x y s f l m =
      (f, λ a b k. let e : in_row 0 x y a b ≡ false = ground arith in rw e refl)
  row_lem (suc n) x y s f l m =
      let low : x < w = omega (arith, l (omega arith)) in
      let one = putpixel_in x y s f low m in
      let (g, k) =
        row_lem n (x + 1) y (put s x y color) (put-HasSize x y s f)
          (λ z. omega (arith, l (omega arith))) m in
      rw one
        (g, (λ a b r. let q = pixel-put x y a b s f low m r in let e = k a b r in ground arith))

  rows_lem :
      (rows n x y : ℕ) (s : Framebuffer)
      → HasSize w h p s
      → (0 < n → x + n ≤ w)
      → (0 < rows → y + rows ≤ h)
      → HasSize w h p (each_row plot rows n x y s)
        × ((a b : ℕ)
            → a < w
            → pixel p (each_row plot rows n x y s) a b
              ≡ (if in_rows rows n x y a b then color % 256 else pixel p s a b))
  unfolding each_row
  rows_lem zero n x y s f l m =
      (f, λ a b k. let e : in_rows 0 n x y a b ≡ false = ground arith in rw e refl)
  rows_lem (suc rows) n x y s f l m =
      let (f', one) = row_lem n x y s f l (omega (arith, m (omega arith))) in
      let (g, k) =
        rows_lem rows n x (y + 1) (each_in_row plot n x y s) f' l
          (λ z. omega (arith, m (omega arith))) in
      (g, (λ a b r. let q = one a b r in let e = k a b r in ground arith))

-- fb_fill_rect writes the colour to each pixel of the screen that is in the rectangle, and to no other pixel. The far
-- edges of the rectangle, which may lie beyond the screen, do not overflow 32 bits.
pub fb_fill_rect-pixel :
    (w h p x y width height color : ℕ) (s : Framebuffer) (a b : ℕ)
    → HasSize w h p s
    → x + width < 2 ^ 32
    → y + height < 2 ^ 32
    → a < w
    → b < h
    → pixel p (fb_fill_rect x y width height color s) a b ≡ (
        if leb x a && ltb a (x + width) && leb y b && ltb b (y + height)
        then color % 256
        else pixel p s a b)
unfolding fb_fill_rect
fb_fill_rect-pixel w h p x y width height color s a b f l m k r =
    let i = f.width_is in
    let j = f.height_is in
    let nx = min (add32 x width) s.width - x in
    let ny = min (add32 y height) s.height - y in
    let (g, q) = rows_lem w h p color ny nx x y s f (λ z. omega arith) (λ z. omega arith) in
    let e = q a b k in
    let same : in_rows w h p color ny nx x y a b
        ≡ (leb x a && ltb a (x + width) && leb y b && ltb b (y + height)) =
      ground arith in
    rw f.usable (e ∙ ap (λ t. if t then color % 256 else pixel p s a b) same)
