-- ===== src/Base/Find.antt =====
-- The search loop `for (i = from; i < from + n; i++) if (p(i)) return i;`, which the tables of the
-- kernel share, and the number of indices that satisfy a test.
use Prim.Native.Nat.{ℕ, zero, suc, ◌+◌, ◌<◌, ◌≤◌}
use mathlib.Core.Path.{◌≡◌, refl}
use mathlib.Core.Logic.{◌≢◌, inl, inr}
use mathlib.Core.Bool.{Bool, true, false}
use mathlib.Core.Option.{Option, none, some}
use native.Mathlib.Omega.{arith}
use trade_kernel.Base.Tests.{Bool-cases, if◌then◌else◌, ◌==◌}

unfoldable pub find_from : (ℕ → Bool) → ℕ → ℕ → Option ℕ
find_from p zero i = none
find_from p (suc n) i = let rest = find_from p n (i + 1) in if p i then some i else rest

-- What the loop returns passes the test and lies in the range.
pub find_from_sound :
    (p : ℕ → Bool) (n i : ℕ) {k : ℕ}
    → find_from p n i ≡ some k
    → (p k ≡ true) × (i ≤ k) × (k < i + n)
unfolding find_from
find_from_sound p zero i h = absurd (cc)
find_from_sound p (suc n) i {k} h = elim (Bool-cases (p i)) [
  | inl t ↦ ground arith
  | inr f ↦ ground (arith, find_from_sound p n (i + 1) {k = k})
]

-- No earlier index of the range passes it.
pub find_from_first :
    (p : ℕ → Bool) (n i j : ℕ) {k : ℕ} → find_from p n i ≡ some k → i ≤ j → j < k → p j ≡ false
unfolding find_from
find_from_first p zero i j h a b = absurd (cc)
find_from_first p (suc n) i j {k} h a b = elim (Bool-cases (p i)) [
  | inl t ↦ ground arith
  | inr f ↦ ground (arith, find_from_first p n (i + 1) j {k = k})
]

-- When the loop falls through, no index of the range passes.
pub find_from-none :
    (p : ℕ → Bool) (n i j : ℕ) → find_from p n i ≡ none → i ≤ j → j < i + n → p j ≡ false
unfolding find_from
find_from-none p zero i j h a b = absurd (omega arith)
find_from-none p (suc n) i j h a b = ground (arith, find_from-none p n (i + 1) j)

-- The number of indices below `n` that pass.
unfoldable pub count_below : (ℕ → Bool) → ℕ → ℕ
count_below p zero = 0
count_below p (suc n) = count_below p n + (if p n then 1 else 0)

pub count_below-le : (p : ℕ → Bool) (n : ℕ) → count_below p n ≤ n
unfolding count_below
count_below-le p zero = omega arith
count_below-le p (suc n) = ground (arith, count_below-le p n)

pub count_below-ext :
    (p q : ℕ → Bool) (n : ℕ) → ((j : ℕ) → j < n → p j ≡ q j) → count_below p n ≡ count_below q n
unfolding count_below
count_below-ext p q zero h = refl
count_below-ext p q (suc n) h =
    ground (arith, h n (omega arith), count_below-ext p q n (λ j l. h j (omega arith)))

-- Switching one index on adds one.
pub count_below-switch :
    (p q : ℕ → Bool) (n i : ℕ)
    → i < n
    → p i ≡ false
    → q i ≡ true
    → ((j : ℕ) → j ≢ i → p j ≡ q j)
    → count_below q n ≡ count_below p n + 1
unfolding count_below
count_below-switch p q zero i l a b h = absurd (omega arith)
count_below-switch p q (suc n) i l a b h = elim (Bool-cases (n == i)) [
  | inl e ↦ ground (arith, count_below-ext p q n (λ j k. h j (λ x. ground arith)))
  | inr f ↦ ground (arith, h n, count_below-switch p q n i)
]

-- With every index passing the count is the length of the range.
pub count_below-all : (p : ℕ → Bool) (n : ℕ) → ((j : ℕ) → j < n → p j ≡ true) → count_below p n ≡ n
unfolding count_below
count_below-all p zero h = refl
count_below-all p (suc n) h =
    ground (arith, h n (omega arith), count_below-all p n (λ j l. h j (omega arith)))

-- A positive count has a passing index, so the loop returns one.
pub count_below-none :
    (p : ℕ → Bool) (n : ℕ) → ((j : ℕ) → j < n → p j ≡ false) → count_below p n ≡ 0
unfolding count_below
count_below-none p zero h = refl
count_below-none p (suc n) h =
    ground (arith, h n (omega arith), count_below-none p n (λ j l. h j (omega arith)))
