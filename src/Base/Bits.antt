-- ===== src/Base/Bits.antt =====
-- Single bits of a word, digit by digit, and bitmaps of `w`-bit words.
use Prim.Native.Nat.{ℕ, zero, suc, ◌+◌, ◌*◌, ◌/◌, ◌%◌, ◌<◌}
use mathlib.Core.Path.{◌≡◌, refl, sym, ap₂, ◌∙◌}
use mathlib.Core.Logic.{◌≢◌, inl, inr}
use mathlib.Core.Bool.{Bool, true, false}
use mathlib.Core.List.{List}
use native.Mathlib.Nat.{div-add-mod}
use native.Mathlib.Omega.{arith}
use trade_kernel.Base.Tests.{Bool-cases, ◌==◌}
use trade_kernel.Base.Lists.{length, get_or, set, length-set, get_or-set_self, get_or-set_ne}

-- `x & (1 << b)`, as a condition
unfoldable pub test_bit : ℕ → ℕ → Bool
test_bit x zero = x % 2 == 1
test_bit x (suc b) = test_bit (x / 2) b

-- `x | (1 << b)`
unfoldable pub set_bit : ℕ → ℕ → ℕ
set_bit x zero = x / 2 * 2 + 1
set_bit x (suc b) = set_bit (x / 2) b * 2 + x % 2

-- `x & ~(1 << b)`
unfoldable pub clear_bit : ℕ → ℕ → ℕ
clear_bit x zero = x / 2 * 2
clear_bit x (suc b) = clear_bit (x / 2) b * 2 + x % 2

half_digit : (a x : ℕ) → (a * 2 + x % 2) / 2 ≡ a
half_digit a x = omega arith

test_bit-set_self : (x b : ℕ) → test_bit (set_bit x b) b ≡ true
unfolding test_bit set_bit
test_bit-set_self x zero = ground arith
test_bit-set_self x (suc b) = rw (half_digit (set_bit (x / 2) b) x) (test_bit-set_self (x / 2) b)

test_bit-set_ne : (x b c : ℕ) → b ≢ c → test_bit (set_bit x b) c ≡ test_bit x c
unfolding test_bit set_bit
test_bit-set_ne x zero zero h = absurd (h refl)
test_bit-set_ne x zero (suc c) h = let e : (x / 2 * 2 + 1) / 2 ≡ x / 2 = omega arith in rw e
test_bit-set_ne x (suc b) zero h =
    let e : (set_bit (x / 2) b * 2 + x % 2) % 2 ≡ x % 2 = omega arith in rw e
test_bit-set_ne x (suc b) (suc c) h =
    rw (half_digit (set_bit (x / 2) b) x) (test_bit-set_ne (x / 2) b c (λ e. h (omega arith)))

test_bit-clear_self : (x b : ℕ) → test_bit (clear_bit x b) b ≡ false
unfolding test_bit clear_bit
test_bit-clear_self x zero = ground arith
test_bit-clear_self x (suc b) =
    rw (half_digit (clear_bit (x / 2) b) x) (test_bit-clear_self (x / 2) b)

test_bit-clear_ne : (x b c : ℕ) → b ≢ c → test_bit (clear_bit x b) c ≡ test_bit x c
unfolding test_bit clear_bit
test_bit-clear_ne x zero zero h = absurd (h refl)
test_bit-clear_ne x zero (suc c) h = let e : x / 2 * 2 / 2 ≡ x / 2 = omega arith in rw e
test_bit-clear_ne x (suc b) zero h =
    let e : (clear_bit (x / 2) b * 2 + x % 2) % 2 ≡ x % 2 = omega arith in rw e
test_bit-clear_ne x (suc b) (suc c) h =
    rw (half_digit (clear_bit (x / 2) b) x) (test_bit-clear_ne (x / 2) b c (λ e. h (omega arith)))

-- Bit `i % w` of word `i / w`.
module _ (w : ℕ) where
  unfoldable pub bitmap_test : List ℕ → ℕ → Bool
  bitmap_test bm i = test_bit (get_or bm (i / w) 0) (i % w)

  unfoldable pub bitmap_set : List ℕ → ℕ → List ℕ
  bitmap_set bm i = set bm (i / w) (set_bit (get_or bm (i / w) 0) (i % w))

  unfoldable pub bitmap_clear : List ℕ → ℕ → List ℕ
  bitmap_clear bm i = set bm (i / w) (clear_bit (get_or bm (i / w) 0) (i % w))

  pub length-bitmap_set : (bm : List ℕ) (i : ℕ) → length (bitmap_set bm i) ≡ length bm
  unfolding bitmap_set
  length-bitmap_set bm i = length-set bm (i / w) _

  pub length-bitmap_clear : (bm : List ℕ) (i : ℕ) → length (bitmap_clear bm i) ≡ length bm
  unfolding bitmap_clear
  length-bitmap_clear bm i = length-set bm (i / w) _

  pub bitmap_test-set_self :
      (bm : List ℕ) (i : ℕ) → i / w < length bm → bitmap_test (bitmap_set bm i) i ≡ true
  unfolding bitmap_test bitmap_set
  bitmap_test-set_self bm i h =
      rw (get_or-set_self bm (i / w) (set_bit (get_or bm (i / w) 0) (i % w)) 0 h)
        (test_bit-set_self _ (i % w))

  pub bitmap_test-clear_self :
      (bm : List ℕ) (i : ℕ) → i / w < length bm → bitmap_test (bitmap_clear bm i) i ≡ false
  unfolding bitmap_test bitmap_clear
  bitmap_test-clear_self bm i h =
      rw (get_or-set_self bm (i / w) (clear_bit (get_or bm (i / w) 0) (i % w)) 0 h)
        (test_bit-clear_self _ (i % w))

  -- An index is its word and its place in the word.
  bitmap_test-update :
      (bm : List ℕ) (i j v : ℕ)
      → i / w < length bm
      → i ≢ j
      → ((c : ℕ) → i % w ≢ c → test_bit v c ≡ test_bit (get_or bm (i / w) 0) c)
      → bitmap_test (set bm (i / w) v) j ≡ bitmap_test bm j
  unfolding bitmap_test
  bitmap_test-update bm i j v h ne same = elim (Bool-cases (i / w == j / w)) [
    | inl e ↦
        let q : i / w ≡ j / w = ground arith in
        rw (← q, get_or-set_self bm (i / w) v 0 h)
          (same (j % w)
            (λ r. ne (sym (div-add-mod i w) ∙ ap₂ (λ a b. w * a + b) q r ∙ div-add-mod j w)))
    | inr f ↦ rw (get_or-set_ne bm (i / w) (j / w) v 0 (λ q. ground arith))
  ]

  pub bitmap_test-set_ne :
      (bm : List ℕ) (i j : ℕ)
      → i / w < length bm
      → i ≢ j
      → bitmap_test (bitmap_set bm i) j ≡ bitmap_test bm j
  unfolding bitmap_set
  bitmap_test-set_ne bm i j h ne =
      bitmap_test-update bm i j _ h ne (λ c d. test_bit-set_ne _ (i % w) c d)

  pub bitmap_test-clear_ne :
      (bm : List ℕ) (i j : ℕ)
      → i / w < length bm
      → i ≢ j
      → bitmap_test (bitmap_clear bm i) j ≡ bitmap_test bm j
  unfolding bitmap_clear
  bitmap_test-clear_ne bm i j h ne =
      bitmap_test-update bm i j _ h ne (λ c d. test_bit-clear_ne _ (i % w) c d)
