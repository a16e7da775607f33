-- ===== src/Fs/Layout/Slices.antt =====
-- kernel/fs/fs.c: copies of structures into and out of a block.
use trade_kernel.Base.{
  ℕ, ◌+◌, ◌<◌, ◌≤◌, zero, suc, ◌≡◌, ◌⊎◌, inl, inr, ◌∙◌, refl, ap, ap₂, List, [], ◌∷◌, get_or, set,
  length, length-set, get_or-set_self, get_or-set_ne, arith,
}
use trade_kernel.Fs.Layout.{slice, store}

pub length-store : (o : ℕ) (xs bs : List ℕ) → length (store o xs bs) ≡ length bs
unfolding store
length-store o [] bs = refl
length-store o (x ∷ xs) bs = length-store (o + 1) xs (set bs o x) ∙ length-set bs o x

pub length-slice : (bs : List ℕ) (o n : ℕ) → length (slice bs o n) ≡ n
unfolding slice
length-slice bs o zero = refl
length-slice bs o (suc n) = ap suc (length-slice bs (o + 1) n)

-- A copy leaves the bytes before it,
pub get_or-store_before :
    (o j : ℕ) (xs bs : List ℕ) → j < o → get_or (store o xs bs) j 0 ≡ get_or bs j 0
unfolding store
get_or-store_before o j [] bs h = refl
get_or-store_before o j (x ∷ xs) bs h =
    get_or-store_before (o + 1) j xs (set bs o x) (omega arith)
    ∙ get_or-set_ne bs o j x 0 (λ e. omega arith)

-- and those behind it.
pub get_or-store_behind :
    (o j : ℕ) (xs bs : List ℕ) → o + length xs ≤ j → get_or (store o xs bs) j 0 ≡ get_or bs j 0
unfolding store
get_or-store_behind o j [] bs h = refl
get_or-store_behind o j (x ∷ xs) bs h =
    get_or-store_behind (o + 1) j xs (set bs o x) (omega arith)
    ∙ get_or-set_ne bs o j x 0 (λ e. omega arith)

pub slice-ext :
    (xs bs : List ℕ) (o n : ℕ)
    → ((j : ℕ) → o ≤ j → j < o + n → get_or xs j 0 ≡ get_or bs j 0)
    → slice xs o n ≡ slice bs o n
unfolding slice
slice-ext xs bs o zero h = refl
slice-ext xs bs o (suc n) h =
    ap₂ ◌∷◌ (h o (omega arith) (omega arith))
      (slice-ext xs bs (o + 1) n (λ j low high. h j (omega arith) (omega arith)))

-- What was copied in is read back.
pub slice-store :
    (o : ℕ) (xs bs : List ℕ) → o + length xs ≤ length bs → slice (store o xs bs) o (length xs) ≡ xs
unfolding slice store
slice-store o [] bs h = refl
slice-store o (x ∷ xs) bs h =
    ap₂ ◌∷◌
      (get_or-store_before (o + 1) o xs (set bs o x) (omega arith)
        ∙ get_or-set_self bs o x 0 (omega arith))
      (slice-store (o + 1) xs (set bs o x) (omega (arith, length-set bs o x)))

pub slice-store_other :
    (o p n : ℕ) (xs bs : List ℕ)
    → (p + n ≤ o) ⊎ (o + length xs ≤ p)
    → slice (store o xs bs) p n ≡ slice bs p n
slice-store_other o p n xs bs (inl h) =
    slice-ext (store o xs bs) bs p n (λ j low high. get_or-store_before o j xs bs (omega arith))
slice-store_other o p n xs bs (inr h) =
    slice-ext (store o xs bs) bs p n (λ j low high. get_or-store_behind o j xs bs (omega arith))
