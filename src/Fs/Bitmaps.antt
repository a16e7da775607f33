-- ===== src/Fs/Bitmaps.antt =====
-- kernel/fs/fs.c: _fs_allocate_block, _fs_free_block, _fs_allocate_inode, _fs_free_inode. A set bit
-- marks a block or an inode in use; inode 0 does not exist.
pub mod Blocks
pub mod Inodes
use trade_kernel.Base.{
  ℕ, ◌+◌, List, Option, none, some, Bool, true, false, not, ltb, leb, ◌==◌, ◌||◌, if◌then◌else◌,
  add32, sub32, find_from, bitmap_test, bitmap_set, bitmap_clear,
}
use trade_kernel.Fs.State.{Fs, Superblock, FsResult, ok, err, invalid, no_space}

abbrev pub with_block : Fs → List ℕ → ℕ → Fs
with_block s bm free = record s {
  block_bitmap = some bm;
  superblock = record s.superblock { free_blocks = free };
}

abbrev pub with_inode : Fs → List ℕ → ℕ → Fs
with_inode s bm free = record s {
  inode_bitmap = some bm;
  superblock = record s.superblock { free_inodes = free };
}

unfoldable pub fs_allocate_block : Fs → FsResult × Fs
fs_allocate_block s = elim s.block_bitmap [
  | none ↦ (err invalid, s)
  | some bm ↦ elim (find_from (λ i. not (bitmap_test 8 bm i)) s.superblock.total_blocks 0) [
    | none ↦ (err no_space, s)
    | some i ↦ (ok i, with_block s (bitmap_set 8 bm i) (sub32 s.superblock.free_blocks 1))
  ]
]

unfoldable pub fs_free_block : ℕ → Fs → FsResult × Fs
fs_free_block n s = elim s.block_bitmap [
  | none ↦ (err invalid, s)
  | some bm ↦
      if leb s.superblock.total_blocks n
      then (err invalid, s)
      else (ok 0, with_block s (bitmap_clear 8 bm n) (add32 s.superblock.free_blocks 1))
]

unfoldable pub fs_allocate_inode : Fs → FsResult × Fs
fs_allocate_inode s = elim s.inode_bitmap [
  | none ↦ (err invalid, s)
  | some bm ↦ elim (find_from (λ i. not (bitmap_test 8 bm i)) s.superblock.total_inodes 1) [
    | none ↦ (err no_space, s)
    | some i ↦ (ok i, with_inode s (bitmap_set 8 bm i) (sub32 s.superblock.free_inodes 1))
  ]
]

unfoldable pub fs_free_inode : ℕ → Fs → FsResult × Fs
fs_free_inode n s = elim s.inode_bitmap [
  | none ↦ (err invalid, s)
  | some bm ↦
      if n == 0 || ltb s.superblock.total_inodes n
      then (err invalid, s)
      else (ok 0, with_inode s (bitmap_clear 8 bm n) (add32 s.superblock.free_inodes 1))
]
