-- ===== src/Fs/Format/Fresh.antt =====
-- kernel/fs/fs.c: fs_init on a kernel that has just started, whose superblock is all zero.
use trade_kernel.Base.{ℕ, ◌≡◌, refl, true, List, Option, none, leb, arith}
use trade_kernel.Fs.State.{err, not_found}
use trade_kernel.Fs.Disk.{disk_init}
use trade_kernel.Fs.Inodes.{Volume, read_block, is_success}
use trade_kernel.Fs.Format.{fs_init, fs_read_superblock, mount, close_all}

refused : (v : Volume) → v.fs.superblock.total_blocks ≡ 0 → read_block 0 v ≡ none
unfolding read_block
refused v z = let l : leb v.fs.superblock.total_blocks 0 ≡ true = ground arith in rw l refl

unread : (v : Volume) → v.fs.superblock.total_blocks ≡ 0 → fs_read_superblock v ≡ none
unfolding fs_read_superblock
unread v z = rw (refused v z, fs_read_superblock) refl

-- As long as the superblock in memory counts no blocks, as it does when the kernel starts, fs_init of a disk that
-- initialises answers FS_ERROR_NOT_FOUND and mounts nothing, whatever filesystem the disk holds: block 0 is not
-- below the number of blocks, so that read_block refuses to read it.
pub fs_init-not_found :
    (blocks inodes : Option (List ℕ)) (v : Volume)
    → v.fs.superblock.total_blocks ≡ 0
    → is_success (disk_init v.disk).0 ≡ true
    → let (result, w) = fs_init blocks inodes v in
      (result ≡ err not_found) × (w.fs.mounted ≡ v.fs.mounted) × (w.fs.superblock ≡ v.fs.superblock)
unfolding fs_init mount
fs_init-not_found blocks inodes v z s =
    let fs = record v.fs { file_descriptors = close_all v.fs.file_descriptors } in
    rw (s, unread (record v { disk = (disk_init v.disk).1; fs = fs }) z) (refl, refl, refl)
