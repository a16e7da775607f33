-- ===== src/Tests/Fs.antt =====
-- kernel/fs/fs.c: a mounted filesystem of eight blocks and seven inodes.
use trade_kernel.Base.{
  ℕ, ◌≡◌, true, [], ◌∷◌, some, replicate, refl, arith, bitmap_test, test_bit, count_below,
}
use trade_kernel.Fs.State.{Fs, ok}
use trade_kernel.Fs.Bitmaps.{fs_allocate_block}
use trade_kernel.Fs.Bitmaps.Blocks.{IsValid, Allocated, fs_allocate_block-Allocated}
use trade_kernel.Fs.Descriptors.{no_descriptor}

-- The blocks 0 and 1 and the inode 1 are in use.
abbrev disk : Fs
disk = record {
  mounted = true;
  superblock = record {
    magic = 0;
    total_blocks = 8;
    free_blocks = 6;
    inode_blocks = 1;
    data_blocks = 6;
    block_size = 512;
    inodes_per_block = 4;
    total_inodes = 7;
    free_inodes = 6;
    root_inode = 1;
  };
  file_descriptors = replicate 32 no_descriptor;
  block_bitmap = some (3 ∷ []);
  inode_bitmap = some (2 ∷ []);
}

disk-IsValid : IsValid disk (3 ∷ [])
unfolding bitmap_test test_bit count_below
disk-IsValid = record { loaded = refl; room = omega arith; small = omega arith; counted = refl }

fs_allocate_block-Allocated_example :
    (n : ℕ) × ((fs_allocate_block disk).0 ≡ ok n)
    × Allocated disk (3 ∷ []) n (fs_allocate_block disk).1
fs_allocate_block-Allocated_example =
    fs_allocate_block-Allocated disk (3 ∷ []) disk-IsValid (omega arith)
