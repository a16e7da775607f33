-- ===== src/Ipc/Ring/Start.antt =====
-- kernel/proc/ipc.c: the loop of ringbuf_init that rounds the size up to a power of two.
use trade_kernel.Base.{
  ℕ, zero, suc, ◌+◌, ◌-◌, ◌*◌, ◌^◌, ◌⊎◌, ◌≤◌, ◌<◌, ◌≡◌, ◌∙◌, sym, ap, refl, inl, inr, Bool-cases,
  Option, some, none, ◌==◌, arith, lt→ltb, ==→eq, ne→==, mul32, pow-add,
}
use native.Mathlib.Nat.{pow-suc, one-le-pow}
use trade_kernel.Mm.Heap.Blocks.{Heap}
use trade_kernel.Ipc.Ring.{round_up, out_of_fuel, ringbuf_init}

-- What the loop returns from 2 ^ k on: the first power of two that is not below `size`.
record Rounded (size k : ℕ) (o : Option ℕ) : Type 0 where
  bits : ℕ
  result : o ≡ some (2 ^ bits)
  from_start : k ≤ bits
  few_bits : bits ≤ 31
  enough : size ≤ 2 ^ bits
  least : (bits ≡ k) ⊎ (2 ^ bits < 2 * size)

pow_mono : (k m : ℕ) → k ≤ m → 2 ^ k ≤ 2 ^ m
pow_mono k m h =
    let back : k + (m - k) ≡ m = omega arith in
    let e : 2 ^ m ≡ 2 ^ k * 2 ^ (m - k) = ap (λ n. 2 ^ n) (sym back) ∙ pow-add k (m - k) in
    let pos : 1 ≤ 2 ^ (m - k) = one-le-pow (m - k) 2 (omega arith) in grind (arith, e, pos)

doubled : (k : ℕ) → k ≤ 30 → mul32 (2 ^ k) 2 ≡ 2 ^ suc k
doubled k h = omega (arith, pow-suc 2 k, pow_mono k 30 h)

-- From the value 0, which the doubling reaches after 2 ^ 31, the loop never ends.
round_up-stuck : (fuel size : ℕ) → 0 < size → round_up fuel size 0 ≡ none
unfolding round_up
round_up-stuck zero size h = refl
round_up-stuck (suc fuel) size h = rw (lt→ltb 0 size h) (round_up-stuck fuel size h)

round_up-diverges : (fuel size k : ℕ) → 2 ^ 31 < size → k ≤ 31 → round_up fuel size (2 ^ k) ≡ none
unfolding round_up
round_up-diverges zero size k s b = refl
round_up-diverges (suc fuel) size k s b = elim (Bool-cases (k == 31)) [
  | inl e ↦
      let top : 2 ^ k ≡ 2 ^ 31 = ap (λ n. 2 ^ n) (==→eq k 31 e) in
      rw (top, lt→ltb (2 ^ 31) size s) (round_up-stuck fuel size (omega arith))
  | inr f ↦
      let low : k ≤ 30 = ground arith in
      rw (lt→ltb (2 ^ k) size (omega (arith, pow_mono k 30 low)), doubled k low)
        (round_up-diverges fuel size (suc k) s (omega arith))
]

-- For a size above 2 ^ 31 the loop of ringbuf_init does not end, whatever the fuel.
pub ringbuf_init-diverges :
    (split_file unknown_file fuel size element_size : ℕ) (h : Heap)
    → 2 ^ 31 < size
    → 0 < element_size
    → ringbuf_init split_file unknown_file fuel size element_size h ≡ (out_of_fuel, h)
unfolding ringbuf_init
ringbuf_init-diverges split_file unknown_file fuel size element_size h s p = rw (
  ne→== size 0 (λ e. omega arith),
  ne→== element_size 0 (λ e. omega arith),
  round_up-diverges fuel size 0 s (omega arith),
  ringbuf_init,
)
