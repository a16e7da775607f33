-- ===== src/Base/Masks.antt =====
-- `x & (2 ^ k - 1)` is the remainder by 2 ^ k, for every k.
use Prim.Native.Nat.{
  ℕ, zero, suc, ◌+◌, ◌-◌, ◌*◌, ◌/◌, ◌%◌, ◌^◌, ◌≤◌, min, bit_and, digits, bit_and-bitwise,
}
use mathlib.Core.Path.{◌≡◌, refl, ap, ◌∙◌}
use native.Mathlib.Nat.{
  pow-suc, one-le-pow, div-add-mod, mul-add-mod_self_left, mod-eq_of_lt, mod-lt,
}
use native.Mathlib.Omega.{arith}

-- The digit recursion that `bit_and` stands for; its first argument bounds the digits.
abbrev and_upto : ℕ → ℕ → ℕ → ℕ
and_upto fuel x y = digits (λ r. zero) min fuel x y

and_upto_enough : (f g x y : ℕ) → x ≤ f → x ≤ g → and_upto f x y ≡ and_upto g x y
and_upto_enough zero zero x y p q = refl
and_upto_enough zero (suc g) zero y p q = refl
and_upto_enough zero (suc g) (suc x) y p q = absurd (omega arith)
and_upto_enough (suc f) zero zero y p q = refl
and_upto_enough (suc f) zero (suc x) y p q = absurd (omega arith)
and_upto_enough (suc f) (suc g) zero y p q = refl
and_upto_enough (suc f) (suc g) (suc x) y p q =
    omega (arith, and_upto_enough f g (suc x / 2) (y / 2) (omega arith) (omega arith))

bit_and_of_zero : (y : ℕ) → bit_and 0 y ≡ 0
bit_and_of_zero y = bit_and-bitwise 0 y

bit_and_low : (x y : ℕ) → bit_and x y ≡ bit_and (x / 2) (y / 2) * 2 + min (x % 2) (y % 2)
bit_and_low zero y = omega (arith, bit_and_of_zero y, bit_and_of_zero (y / 2))
bit_and_low (suc x) y = omega (
  arith,
  bit_and-bitwise (suc x) y,
  bit_and-bitwise (suc x / 2) (y / 2),
  and_upto_enough x (suc x / 2) (suc x / 2) (y / 2) (omega arith) (omega arith),
)

-- By induction on a bound of `x`.
bit_and_none : (bound x : ℕ) → x ≤ bound → bit_and x 0 ≡ 0
bit_and_none bound zero h = refl
bit_and_none zero (suc x) h = absurd (omega arith)
bit_and_none (suc bound) (suc x) h =
    omega (arith, bit_and_low (suc x) 0, bit_and_none bound (suc x / 2) (omega arith))

mod_double : (x p : ℕ) → 1 ≤ p → x % (2 * p) ≡ x / 2 % p * 2 + x % 2
mod_double x p h =
    let e : x ≡ 2 * p * (x / 2 / p) + (x / 2 % p * 2 + x % 2) =
      omega (arith, div-add-mod (x / 2) p) in
    ap (λ t. t % (2 * p)) e
    ∙ (mul-add-mod_self_left (2 * p) (x / 2 / p) (x / 2 % p * 2 + x % 2)
        ∙ mod-eq_of_lt (omega (arith, mod-lt (x / 2) {m = p} h)))

pub bit_and-mask : (k x : ℕ) → bit_and x (2 ^ k - 1) ≡ x % 2 ^ k
bit_and-mask zero x = omega (arith, bit_and_none x x (omega arith))
bit_and-mask (suc k) x =
    let half : (2 ^ suc k - 1) / 2 ≡ 2 ^ k - 1 = omega (arith, pow-suc 2 k, one-le-pow k 2) in
    let double : 2 ^ suc k ≡ 2 * 2 ^ k = omega (arith, pow-suc 2 k) in
    let step : bit_and x (2 ^ suc k - 1) ≡ bit_and (x / 2) (2 ^ k - 1) * 2 + x % 2 =
      omega
        (arith, bit_and_low x (2 ^ suc k - 1), ap (bit_and (x / 2)) half, double, one-le-pow k 2) in
    omega (
      arith,
      step,
      bit_and-mask k (x / 2),
      mod_double x (2 ^ k) (one-le-pow k 2 (omega arith)),
      ap (λ t. x % t) double,
    )

pub pow-add : (a b : ℕ) → 2 ^ (a + b) ≡ 2 ^ a * 2 ^ b
pow-add zero b = let e : 0 + b ≡ b = omega arith in rw e (omega arith)
pow-add (suc a) b =
    let e : suc a + b ≡ suc (a + b) = omega arith in
    rw e (omega (arith, pow-suc 2 (a + b), pow-add a b, ap (λ t. t * 2 ^ b) (pow-suc 2 a)))
