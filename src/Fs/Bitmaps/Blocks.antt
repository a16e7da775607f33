-- ===== src/Fs/Bitmaps/Blocks.antt =====
-- kernel/fs/fs.c: the block bitmap and the count of free blocks.
use trade_kernel.Base.{
  ℕ, ◌+◌, ◌*◌, ◌/◌, ◌^◌, ◌≤◌, ◌<◌, ◌≡◌, ◌≢◌, ap, subst, sym, refl, inl, inr, Bool, true, false, not,
  List, none, some, length, leb, arith, Option-cases, add32, sub32, find_from, find_from_sound,
  find_from_first, find_from-none, count_below, count_below-le, count_below-all, bitmap_test,
  bitmap_set, bitmap_clear, count-bitmap_set, count-bitmap_clear, length-bitmap_set,
  length-bitmap_clear, bitmap_test-set_self, bitmap_test-set_ne,
}
use trade_kernel.Fs.State.{Fs, ok}
use trade_kernel.Fs.Bitmaps.{fs_allocate_block, fs_free_block, with_block}

-- The bitmap `bm` has a bit for each block, and the free blocks and the bits set make up all blocks.
pub record IsValid (s : Fs) (bm : List ℕ) : Type 0 where
  pub loaded : s.block_bitmap ≡ some bm
  pub room : s.superblock.total_blocks ≤ length bm * 8
  pub small : s.superblock.total_blocks < 2 ^ 32
  pub counted :
      s.superblock.free_blocks + count_below (bitmap_test 8 bm) s.superblock.total_blocks
      ≡ s.superblock.total_blocks

-- What a successful allocation of block `n` does.
pub record Allocated (s : Fs) (bm : List ℕ) (n : ℕ) (t : Fs) : Type 0 where
  pub below : n < s.superblock.total_blocks
  pub was_free : bitmap_test 8 bm n ≡ false
  pub first : (j : ℕ) → j < n → bitmap_test 8 bm j ≡ true
  pub now_used : bitmap_test 8 (bitmap_set 8 bm n) n ≡ true
  pub others : (j : ℕ) → j ≢ n → bitmap_test 8 (bitmap_set 8 bm n) j ≡ bitmap_test 8 bm j
  pub one_less : t.superblock.free_blocks + 1 ≡ s.superblock.free_blocks
  pub valid : IsValid t (bitmap_set 8 bm n)

not-true : (b : Bool) → not b ≡ true → b ≡ false
not-true b h = ground arith

not-false : (b : Bool) → not b ≡ false → b ≡ true
not-false b h = ground arith

Allocated-found :
    (s : Fs) (bm : List ℕ) (n : ℕ)
    → IsValid s bm
    → find_from (λ i. not (bitmap_test 8 bm i)) s.superblock.total_blocks 0 ≡ some n
    → Allocated s bm n (with_block s (bitmap_set 8 bm n) (sub32 s.superblock.free_blocks 1))
Allocated-found s bm n v e =
    let (t, z, l) = find_from_sound (λ i. not (bitmap_test 8 bm i)) s.superblock.total_blocks 0 e in
    let l' : n < s.superblock.total_blocks = omega arith in
    let room : n / 8 < length bm = omega (arith, v.room) in
    let free = not-true (bitmap_test 8 bm n) t in
    let c = count-bitmap_set 8 bm s.superblock.total_blocks n l' room free in
    let le = count_below-le (bitmap_test 8 (bitmap_set 8 bm n)) s.superblock.total_blocks in
    record {
      below = l';
      was_free = free;
      first = λ j k. not-false _ (
          find_from_first (λ i. not (bitmap_test 8 bm i)) s.superblock.total_blocks 0 j e
            (omega arith) k);
      now_used = bitmap_test-set_self 8 bm n room;
      others = λ j k. bitmap_test-set_ne 8 bm n j room (λ q. k (sym q));
      one_less = omega (arith, c, le, v.counted, v.small);
      valid = record {
        loaded = refl;
        room = rw (length-bitmap_set 8 bm n) v.room;
        small = v.small;
        counted = omega (arith, c, le, v.counted, v.small);
      };
    }

allocate-eq :
    (s : Fs) (bm : List ℕ) (n : ℕ)
    → s.block_bitmap ≡ some bm
    → find_from (λ i. not (bitmap_test 8 bm i)) s.superblock.total_blocks 0 ≡ some n
    → fs_allocate_block s
      ≡ (ok n, with_block s (bitmap_set 8 bm n) (sub32 s.superblock.free_blocks 1))
unfolding fs_allocate_block
allocate-eq s bm n l e = rw (l, fs_allocate_block, e)

free-eq :
    (s : Fs) (bm : List ℕ) (n : ℕ)
    → s.block_bitmap ≡ some bm
    → leb s.superblock.total_blocks n ≡ false
    → fs_free_block n s
      ≡ (ok 0, with_block s (bitmap_clear 8 bm n) (add32 s.superblock.free_blocks 1))
unfolding fs_free_block
free-eq s bm n l e = rw (l, fs_free_block, e)

-- _fs_allocate_block on a valid bitmap with a free block returns the first free block: its bit is set,
-- no other bit changes, the count goes down by one and the bitmap stays valid.
pub fs_allocate_block-Allocated :
    (s : Fs) (bm : List ℕ)
    → IsValid s bm
    → 0 < s.superblock.free_blocks
    → (n : ℕ) × ((fs_allocate_block s).0 ≡ ok n) × Allocated s bm n (fs_allocate_block s).1
fs_allocate_block-Allocated s bm v h =
    elim (Option-cases (find_from (λ i. not (bitmap_test 8 bm i)) s.superblock.total_blocks 0)) [
      | inl e ↦ absurd (full e)
      | inr (n, e) ↦
          let r = allocate-eq s bm n v.loaded e in
          (
            n,
            ap (λ x. x.0) r,
            subst (λ x. Allocated s bm n x.1) (sym r) (Allocated-found s bm n v e),
          )
    ]
  where
    full : find_from (λ i. not (bitmap_test 8 bm i)) s.superblock.total_blocks 0 ≡ none → ⊥
    full e =
        let all = count_below-all (bitmap_test 8 bm) s.superblock.total_blocks (λ j l. not-false _ (
          find_from-none (λ i. not (bitmap_test 8 bm i)) s.superblock.total_blocks 0 j e
            (omega arith) (omega arith))) in
        omega (arith, all, v.counted)

-- _fs_free_block of a block in use clears its bit, raises the count by one and keeps the bitmap valid.
pub fs_free_block-IsValid :
    (s : Fs) (bm : List ℕ) (n : ℕ)
    → IsValid s bm
    → n < s.superblock.total_blocks
    → bitmap_test 8 bm n ≡ true
    → let (r, t) = fs_free_block n s in
      (r ≡ ok 0)
      × IsValid t (bitmap_clear 8 bm n)
      × (t.superblock.free_blocks ≡ s.superblock.free_blocks + 1)
fs_free_block-IsValid s bm n v l t =
    let room : n / 8 < length bm = omega (arith, v.room) in
    let c = count-bitmap_clear 8 bm s.superblock.total_blocks n l room t in
    let below : leb s.superblock.total_blocks n ≡ false = ground arith in
    rw (free-eq s bm n v.loaded below) (
      refl,
      record {
        loaded = refl;
        room = rw (length-bitmap_clear 8 bm n) v.room;
        small = v.small;
        counted = omega (arith, c, v.counted, v.small);
      },
      omega (arith, c, v.counted, v.small),
    )
