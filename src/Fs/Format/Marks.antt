-- ===== src/Fs/Format/Marks.antt =====
-- kernel/fs/fs.c: the bitmaps and the root directory that fs_format leaves.
use trade_kernel.Base.{
  ℕ, zero, suc, ◌+◌, ◌*◌, ◌/◌, ◌%◌, ◌<◌, ◌≤◌, ◌≡◌, ◌∙◌, refl, false, List, arith, length,
  length-replicate, get_or-replicate, replicate, bitmap_test, bitmap_set, length-bitmap_set,
  bitmap_test-set_ne, count_below, count_below-none, count-bitmap_set, test_bit,
}
use trade_kernel.Fs.Format.{mark_used}

pub length-mark_used : (n : ℕ) (bm : List ℕ) → length (mark_used n bm) ≡ length bm
unfolding mark_used
length-mark_used zero bm = refl
length-mark_used (suc n) bm = length-bitmap_set 8 (mark_used n bm) n ∙ length-mark_used n bm

test_bit-zero : (b : ℕ) → test_bit 0 b ≡ false
unfolding test_bit
test_bit-zero zero = refl
test_bit-zero (suc b) = test_bit-zero b

clear_at : (k j : ℕ) → bitmap_test 8 (replicate k 0) j ≡ false
unfolding bitmap_test
clear_at k j = rw (get_or-replicate {A = ℕ} k (j / 8) 0) (test_bit-zero (j % 8))

-- Blocks from `n` on are not marked yet.
mark_used_above :
    (n j k : ℕ) → n ≤ j → n ≤ k * 8 → bitmap_test 8 (mark_used n (replicate k 0)) j ≡ false
unfolding mark_used
mark_used_above zero j k h r = clear_at k j
mark_used_above (suc n) j k h r =
    let room : n / 8 < length (mark_used n (replicate k 0)) =
      omega (arith, length-mark_used n (replicate k 0), length-replicate {A = ℕ} k 0) in
    bitmap_test-set_ne 8 (mark_used n (replicate k 0)) n j room (λ e. omega arith)
    ∙ mark_used_above n j k (omega arith) (omega arith)

-- The loop marks exactly as many blocks as it visits.
pub count-mark_used :
    (n total k : ℕ)
    → n ≤ total
    → n ≤ k * 8
    → count_below (bitmap_test 8 (mark_used n (replicate k 0))) total ≡ n
unfolding mark_used
count-mark_used zero total k h r =
    count_below-none (bitmap_test 8 (replicate k 0)) total (λ j l. clear_at k j)
count-mark_used (suc n) total k h r =
    let bm = mark_used n (replicate k 0) in
    let room : n / 8 < length bm =
      omega (arith, length-mark_used n (replicate k 0), length-replicate {A = ℕ} k 0) in
    let one : count_below (bitmap_test 8 (bitmap_set 8 bm n)) total
        ≡ count_below (bitmap_test 8 bm) total + 1 =
      count-bitmap_set 8 bm total n (omega arith) room
        (mark_used_above n n k (omega arith) (omega arith)) in
    omega (arith, one, count-mark_used n total k (omega arith) (omega arith))
