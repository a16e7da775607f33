-- ===== src/Fs/Bitmaps/Inodes.antt =====
-- kernel/fs/fs.c: the inode bitmap. Its numbers run from 1 to total_inodes.
use trade_kernel.Base.{
  ℕ, ◌*◌, ◌/◌, ◌≤◌, ◌<◌, ◌≡◌, ◌≢◌, ◌^◌, ◌∙◌, ap, sym, refl, inl, inr, false, not, List, some,
  length, ltb, ◌==◌, ◌||◌, arith, Bool-cases, Option-cases, add32, sub32, find_from,
  find_from_sound, bitmap_test, bitmap_set, bitmap_clear, bitmap_test-set_ne,
  bitmap_test-clear_self, bitmap_test-clear_ne, length-bitmap_set, ==→eq,
}
use trade_kernel.Fs.State.{Fs, ok}
use trade_kernel.Fs.Bitmaps.{fs_allocate_inode, fs_free_inode, with_inode}

allocate_cases :
    (s : Fs) (bm : List ℕ) (n : ℕ)
    → s.inode_bitmap ≡ some bm
    → (fs_allocate_inode s).0 ≡ ok n
    → (find_from (λ i. not (bitmap_test 8 bm i)) s.superblock.total_inodes 1 ≡ some n)
      × (fs_allocate_inode s
          ≡ (ok n, with_inode s (bitmap_set 8 bm n) (sub32 s.superblock.free_inodes 1)))
unfolding fs_allocate_inode
allocate_cases s bm n l e =
    elim (Option-cases (find_from (λ i. not (bitmap_test 8 bm i)) s.superblock.total_inodes 1)) [
      | inl z ↦ absurd (cc (rw (l, fs_allocate_inode, z) at e))
      | inr (k, z) ↦
          let q : ok k ≡ ok n = rw (l, fs_allocate_inode, z) at e in
          let same : k ≡ n = cc q in
          (
            z ∙ ap some same,
            rw (l, fs_allocate_inode, z)
                (ap
                  (λ i. (ok i, with_inode s (bitmap_set 8 bm i) (sub32 s.superblock.free_inodes 1)))
                  same),
          )
    ]

-- An inode number that _fs_allocate_inode returns is from 1 to total_inodes and was not in use. Freeing
-- it right after succeeds, restores the count of free inodes, and leaves every bit as it was before.
pub fs_free_inode-fs_allocate_inode :
    (s : Fs) (bm : List ℕ) (n : ℕ)
    → s.inode_bitmap ≡ some bm
    → s.superblock.total_inodes < length bm * 8
    → s.superblock.free_inodes < 2 ^ 32
    → (fs_allocate_inode s).0 ≡ ok n
    → let (r, t) = fs_free_inode n (fs_allocate_inode s).1 in
      (1 ≤ n)
      × (n ≤ s.superblock.total_inodes)
      × (bitmap_test 8 bm n ≡ false)
      × (r ≡ ok 0)
      × (t.superblock.free_inodes ≡ s.superblock.free_inodes)
      × ((bm' : List ℕ) × (t.inode_bitmap ≡ some bm')
          × ((j : ℕ) → bitmap_test 8 bm' j ≡ bitmap_test 8 bm j))
unfolding fs_free_inode
fs_free_inode-fs_allocate_inode s bm n l room small e =
    let (f, r) = allocate_cases s bm n l e in
    let (t, lo, hi) =
      find_from_sound (λ i. not (bitmap_test 8 bm i)) s.superblock.total_inodes 1 f in
    let clear : bitmap_test 8 bm n ≡ false = ground arith in
    let place : n / 8 < length bm = omega arith in
    let guard : (n == 0 || ltb s.superblock.total_inodes n) ≡ false = ground arith in
    let count : add32 (sub32 s.superblock.free_inodes 1) 1 ≡ s.superblock.free_inodes =
      omega arith in
    rw (r, guard, count)
      (
        lo,
        omega arith,
        clear,
        refl,
        refl,
        (bitmap_clear 8 (bitmap_set 8 bm n) n, refl, bits clear place),
      )
  where
    bits :
        bitmap_test 8 bm n ≡ false
        → n / 8 < length bm
        → (j : ℕ) → bitmap_test 8 (bitmap_clear 8 (bitmap_set 8 bm n) n) j ≡ bitmap_test 8 bm j
    bits clear place j =
        let room' : n / 8 < length (bitmap_set 8 bm n) = rw (length-bitmap_set 8 bm n) place in
        elim (Bool-cases (n == j)) [
          | inl q ↦
              rw (← ==→eq n j q) (bitmap_test-clear_self 8 (bitmap_set 8 bm n) n room' ∙ sym clear)
          | inr q ↦
              let ne : n ≢ j = λ x. ground arith in
              bitmap_test-clear_ne 8 (bitmap_set 8 bm n) n j room' ne
              ∙ bitmap_test-set_ne 8 bm n j place ne
        ]
