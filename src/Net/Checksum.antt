-- ===== src/Net/Checksum.antt =====
-- kernel/net/net.h: net_checksum on the bytes of a packet. A 16-bit word is read low byte first.
pub mod Complement
use trade_kernel.Base.{
  ℕ, zero, suc, ◌+◌, ◌-◌, ◌*◌, ◌/◌, ◌%◌, ◌^◌, List, [], ◌∷◌, add32, bit_and, ltb, if◌then◌else◌,
}

-- The two loops over the data: the words, and a left-over byte.
unfoldable pub sum_words : List ℕ → ℕ → ℕ
sum_words [] sum = sum
sum_words (a ∷ []) sum = add32 sum a
sum_words (a ∷ b ∷ bs) sum = sum_words bs (add32 sum (a + b * 256))

-- `while (sum >> 16) sum = (sum & 0xFFFF) + (sum >> 16);` for at most `fuel` rounds.
unfoldable pub fold_sum : ℕ → ℕ → ℕ
fold_sum zero sum = sum
fold_sum (suc fuel) sum =
    let rest = fold_sum fuel (sum % 2 ^ 16 + sum / 2 ^ 16) in
    if ltb 0 (sum / 2 ^ 16) then rest else sum

-- The result is `~sum` as a uint16_t; two rounds end the loop.
unfoldable pub net_checksum : List ℕ → ℕ
net_checksum bs = (2 ^ 32 - 1 - fold_sum 2 (sum_words bs 0)) % 2 ^ 16
