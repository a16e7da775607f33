-- ===== src/Drivers/Mouse/Packets.antt =====
-- kernel/drivers/mouse.c: streams of bytes.
use trade_kernel.Base.{
  ℕ, ◌+◌, ◌-◌, ◌%◌, ◌<◌, min, ◌≡◌, ◌∙◌, refl, ap, true, false, List, [], ◌∷◌, ◌++◌, ℤ, pos, negsuc,
  ◌+ℤ◌, ◌-ℤ◌, if◌then◌else◌, ◌==◌, ltb, test_bit, bit_and-mask, Bool-cases, inl, inr, arith,
}
use trade_kernel.Drivers.Mouse.{
  Mouse, width, height, mouse_interrupt_handler, update_position, clamp, int8, interrupts,
}

-- A coordinate that is not negative and below the bound
pub data IsWithin (bound : ℕ) (v : ℤ) : Type 0 where
  at : (n : ℕ) → v ≡ pos n → n < bound → IsWithin bound v

pub record IsOnScreen (s : Mouse) : Type 0 where
  pub x : IsWithin width s.x
  pub y : IsWithin height s.y
  pub cycle : s.cycle < 3

clamp-IsWithin : (bound : ℕ) (v : ℤ) → 0 < bound → IsWithin bound (clamp bound v)
clamp-IsWithin bound (pos n) h = elim (Bool-cases (ltb n bound)) [
  | inl t ↦ at n (ground arith) (ground arith)
  | inr f ↦ at (bound - 1) (ground arith) (omega arith)
]
clamp-IsWithin bound (negsuc n) h = at 0 (ground arith) h

mouse_interrupt_handler-IsOnScreen :
    (byte : ℕ) (s : Mouse) → IsOnScreen s → IsOnScreen (mouse_interrupt_handler byte s)
unfolding mouse_interrupt_handler update_position
mouse_interrupt_handler-IsOnScreen byte s h = elim (Bool-cases (s.cycle == 0)) [
  | inl z ↦ elim (Bool-cases (test_bit byte 3)) [
    | inl t ↦ rw (z, t) (record { x = h.x; y = h.y; cycle = omega arith })
    | inr f ↦ rw (z, f) h
  ]
  | inr z ↦ elim (Bool-cases (s.cycle == 1)) [
    | inl o ↦ rw (z, o) (record { x = h.x; y = h.y; cycle = omega arith })
    | inr o ↦ elim (Bool-cases (s.cycle == 2)) [
      | inl e ↦
          rw (z, o, e)
            (record {
              x = clamp-IsWithin width (s.x +ℤ s.second) (omega arith);
              y = clamp-IsWithin height (s.y -ℤ int8 byte) (omega arith);
              cycle = omega arith;
            })
      | inr e ↦ rw (z, o, e) h
    ]
  ]
]

-- No stream of bytes, whatever the device sends, puts the position off one of the four edges of the screen: the
-- coordinates, which are signed, stay from 0 to 319 and from 0 to 199.
pub interrupts-IsOnScreen : (bs : List ℕ) (s : Mouse) → IsOnScreen s → IsOnScreen (interrupts bs s)
unfolding interrupts
interrupts-IsOnScreen [] s h = h
interrupts-IsOnScreen (b ∷ bs) s h =
    interrupts-IsOnScreen bs (mouse_interrupt_handler b s)
      (mouse_interrupt_handler-IsOnScreen b s h)

abbrev pub AreNoise : List ℕ → Type 0
AreNoise [] = Unit
AreNoise (b ∷ bs) = (test_bit b 3 ≡ false) × AreNoise bs

first_byte :
    (b : ℕ) (s : Mouse)
    → s.cycle ≡ 0
    → mouse_interrupt_handler b s ≡ (if test_bit b 3 then record s { first = b; cycle = 1 } else s)
unfolding mouse_interrupt_handler
first_byte b s c = let z : (s.cycle == 0) ≡ true = ground arith in rw z refl

-- A step by the byte `d` along a line of `bound` places, as numbers: the bytes from 128 on are steps back by what is
-- missing to 256, and the step ends at the ends of the line.
abbrev pub step_forth : ℕ → ℕ → ℕ → ℕ
step_forth bound v d = if ltb d 128 then min (bound - 1) (v + d) else v - (256 - d)

abbrev pub step_back : ℕ → ℕ → ℕ → ℕ
step_back bound v d = if ltb d 128 then v - d else min (bound - 1) (v + (256 - d))

clamp-add : (v d : ℕ) → v < 320 → d < 256 → clamp 320 (pos v +ℤ int8 d) ≡ pos (step_forth 320 v d)
unfolding ◌+ℤ◌ int8
clamp-add v d h k = ground arith

clamp-sub : (v d : ℕ) → v < 200 → d < 256 → clamp 200 (pos v -ℤ int8 d) ≡ pos (step_back 200 v d)
unfolding ◌-ℤ◌ int8
clamp-sub v d h k = ground arith

-- From a place on the screen and between packets, bytes with bit 3 clear are skipped, and the next three bytes, of
-- which the first has bit 3 set, are one packet: the buttons are the low three bits of the first, the second moves
-- the position to the right and the third moves it up, where a byte from 128 on is a move the other way by what is
-- missing to 256; the move ends at the edges of the screen; and the handler is between packets again.
pub interrupts-update_position :
    (noise : List ℕ) (b1 b2 b3 x y : ℕ) (rest : List ℕ) (s : Mouse)
    → s.cycle ≡ 0
    → s.x ≡ pos x
    → s.y ≡ pos y
    → x < 320
    → y < 200
    → b2 < 256
    → b3 < 256
    → AreNoise noise
    → test_bit b1 3 ≡ true
    → (t : Mouse) × (interrupts (noise ++ (b1 ∷ b2 ∷ b3 ∷ rest)) s ≡ interrupts rest t)
      × (t.buttons ≡ b1 % 8)
      × (t.x ≡ pos (step_forth 320 x b2))
      × (t.y ≡ pos (step_back 200 y b3))
      × (t.cycle ≡ 0)
unfolding interrupts mouse_interrupt_handler update_position
interrupts-update_position [] b1 b2 b3 x y rest s c ex ey hx hy h2 h3 n h =
    let one : mouse_interrupt_handler b1 s ≡ record s { first = b1; cycle = 1 } =
      rw (first_byte b1 s c, h) refl in
    (
      update_position b3 (record s { first = b1; second = int8 b2; cycle = 2 }),
      ap (λ t. interrupts rest (mouse_interrupt_handler b3 (mouse_interrupt_handler b2 t))) one,
      bit_and-mask 3 b1,
      rw ex (clamp-add x b2 hx h2),
      rw ey (clamp-sub y b3 hy h3),
      refl,
    )
interrupts-update_position (b ∷ bs) b1 b2 b3 x y rest s c ex ey hx hy h2 h3 (f, n) h =
    let (t, p, q1, q2, q3, q4) =
      interrupts-update_position bs b1 b2 b3 x y rest s c ex ey hx hy h2 h3 n h in
    let one : mouse_interrupt_handler b s ≡ s = rw (first_byte b s c, f) refl in
    (t, ap (interrupts (bs ++ (b1 ∷ b2 ∷ b3 ∷ rest))) one ∙ p, q1, q2, q3, q4)
