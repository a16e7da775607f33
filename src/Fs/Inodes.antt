-- ===== src/Fs/Inodes.antt =====
-- kernel/fs/fs.c: read_block, write_block, _fs_read_inode and _fs_write_inode. The callers tell success
-- from failure only, so a read gives `none` and a write `false` for every error code.
pub mod Blocks
pub mod ReadWrite
use trade_kernel.Base.{
  ℕ, ◌+◌, ◌-◌, ◌*◌, ◌/◌, ◌%◌, Bool, true, false, ◌||◌, List, [], Option, none, some, if◌then◌else◌,
  ltb, leb, ◌==◌,
}
use trade_kernel.Fs.State.{Fs, Superblock, Inode, block_size}
use trade_kernel.Fs.Layout.{inode_bytes, inode_of, slice, store}
use trade_kernel.Fs.Disk.{
  Disk, DiskResult, disk_success, disk_error, disk_timeout_err, disk_not_ready, disk_read_sectors,
  disk_write_sectors, sector_size,
}

-- The static variables of fs.c and disk.c
pub record Volume : Type 0 where
  pub fs : Fs
  pub disk : Disk

abbrev pub block_to_lba : ℕ → ℕ
block_to_lba n = n * (block_size / sector_size)

-- `result != DISK_SUCCESS`
abbrev pub read_result : DiskResult × List ℕ → Option (List ℕ)
read_result (disk_success, bytes) = some bytes
read_result (disk_error, bytes) = none
read_result (disk_timeout_err, bytes) = none
read_result (disk_not_ready, bytes) = none

abbrev pub is_success : DiskResult → Bool
is_success disk_success = true
is_success disk_error = false
is_success disk_timeout_err = false
is_success disk_not_ready = false

abbrev pub write_result : Volume → DiskResult × Disk → Bool × Volume
write_result v (result, d) = (is_success result, record v { disk = d })

unfoldable pub read_block : ℕ → Volume → Option (List ℕ)
read_block n v =
    if leb v.fs.superblock.total_blocks n
    then none
    else read_result (disk_read_sectors (block_to_lba n) (block_size / sector_size) v.disk)

unfoldable pub write_block : ℕ → List ℕ → Volume → Bool × Volume
write_block n buffer v =
    if leb v.fs.superblock.total_blocks n
    then (false, v)
    else write_result v
        (disk_write_sectors (block_to_lba n) (block_size / sector_size) buffer v.disk)

-- sizeof(inode_t)
abbrev pub inode_size : ℕ
inode_size = 80

abbrev pub inodes_per_block : ℕ
inodes_per_block = block_size / inode_size

abbrev pub inode_block : ℕ → ℕ
inode_block n = 1 + (n - 1) / inodes_per_block

abbrev pub inode_offset : ℕ → ℕ
inode_offset n = (n - 1) % inodes_per_block * inode_size

abbrev pub is_no_inode : ℕ → Volume → Bool
is_no_inode n v = n == 0 || ltb v.fs.superblock.total_inodes n

unfoldable pub fs_read_inode : ℕ → Volume → Option Inode
fs_read_inode n v = if is_no_inode n v then none else elim (read_block (inode_block n) v) [
  | none ↦ none
  | some block ↦ some (inode_of (slice block (inode_offset n) inode_size))
]

unfoldable pub fs_write_inode : ℕ → Inode → Volume → Bool × Volume
fs_write_inode n inode v =
    if is_no_inode n v then (false, v) else elim (read_block (inode_block n) v) [
      | none ↦ (false, v)
      | some block ↦
          write_block (inode_block n) (store (inode_offset n) (inode_bytes inode) block) v
    ]
