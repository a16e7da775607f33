-- ===== src/Net/Checksum/Complement.antt =====
-- kernel/net/net.h: net_checksum is the complement of the sum of the words modulo 2 ^ 16 - 1.
use trade_kernel.Base.{ℕ, ◌+◌, ◌*◌, ◌%◌, ◌^◌, ◌≤◌, ◌<◌, ◌≡◌, List, [], ◌∷◌, add32, length, arith}
use trade_kernel.Net.Checksum.{sum_words, fold_sum, net_checksum}

-- The sum of the 16-bit words, without a bound
unfoldable pub word_sum : List ℕ → ℕ
word_sum [] = 0
word_sum (a ∷ []) = a
word_sum (a ∷ b ∷ bs) = a + b * 256 + word_sum bs

abbrev pub AreBytes : List ℕ → Type 0
AreBytes [] = Unit
AreBytes (b ∷ bs) = (b < 256) × AreBytes bs

word_sum-le : (bs : List ℕ) → AreBytes bs → word_sum bs ≤ length bs * 2 ^ 16
unfolding word_sum
word_sum-le [] h = omega arith
word_sum-le (a ∷ []) (x, h) = omega arith
word_sum-le (a ∷ b ∷ bs) (x, (y, h)) = omega (arith, word_sum-le bs h)

-- Without a wrap the loop adds the words.
sum_words-eq :
    (bs : List ℕ) (sum : ℕ) → sum + word_sum bs < 2 ^ 32 → sum_words bs sum ≡ sum + word_sum bs
unfolding sum_words word_sum
sum_words-eq [] sum h = omega arith
sum_words-eq (a ∷ []) sum h = omega arith
sum_words-eq (a ∷ b ∷ bs) sum h =
    let e : add32 sum (a + b * 256) ≡ sum + (a + b * 256) = omega arith in
    rw e (omega (arith, sum_words-eq bs (sum + (a + b * 256)) (omega arith)))

-- Two rounds bring a sum below 2 ^ 16, keep it modulo 2 ^ 16 - 1, and do not make it 0.
fold_sum-small :
    (sum : ℕ) → sum < 2 ^ 32 → (fold_sum 2 sum < 2 ^ 16) × (fold_sum 2 sum % 65535 ≡ sum % 65535)
unfolding fold_sum
fold_sum-small sum h = ground arith

-- For up to 65535 bytes the loop of net_checksum has ended after its two rounds: the checksum is a
-- 16-bit word, and with the sum of the words it is a multiple of 2 ^ 16 - 1.
pub net_checksum-complement :
    (bs : List ℕ)
    → AreBytes bs
    → length bs < 2 ^ 16
    → (fold_sum 2 (sum_words bs 0) < 2 ^ 16)
      × (net_checksum bs < 2 ^ 16)
      × ((word_sum bs + net_checksum bs) % 65535 ≡ 0)
unfolding net_checksum
net_checksum-complement bs h l =
    let small : word_sum bs < 2 ^ 32 = omega (arith, word_sum-le bs h) in
    let e : sum_words bs 0 ≡ word_sum bs = omega (arith, sum_words-eq bs 0 (omega arith)) in
    let (low, same) = fold_sum-small (sum_words bs 0) (omega arith) in
    (low, omega arith, omega arith)
