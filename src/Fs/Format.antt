-- ===== src/Fs/Format.antt =====
-- kernel/fs/fs.c: _fs_read_superblock, _fs_write_superblock, fs_init and fs_format, without what they print.
-- A superblock is 40 bytes and a block 512: the code writes what lies behind the superblock in memory
-- to the disk as well (`beyond`), and reads a whole block over it, of which the model keeps the superblock.
pub mod Marks
pub mod Fresh
pub mod Root
use trade_kernel.Base.{
  ℕ, zero, suc, ◌+◌, ◌-◌, ◌*◌, ◌/◌, Bool, true, false, ◌&&◌, List, [], ◌∷◌, ◌++◌, Option, none,
  some, if◌then◌else◌, ◌==◌, length, replicate, bitmap_set, add32, sub32,
}
use trade_kernel.Fs.State.{
  Fs, Superblock, FileDescriptor, FsResult, ok, err, invalid, not_found, no_memory, block_size,
}
use trade_kernel.Fs.Layout.{superblock_bytes, superblock_of, store}
use trade_kernel.Fs.Disk.{
  DiskResult, disk_success, disk_error, disk_timeout_err, disk_not_ready, disk_init,
  disk_get_total_sectors, sector_size,
}
use trade_kernel.Fs.Inodes.{
  Volume, read_block, write_block, fs_write_inode, inodes_per_block, is_success,
}
use trade_kernel.Fs.Directories.{file_type_directory}
use trade_kernel.Fs.Paths.{root_inode}
use trade_kernel.Fs.Files.{new_inode}

-- "TRAD"
abbrev pub fs_magic : ℕ
fs_magic = 1414676804

unfoldable pub fs_read_superblock : Volume → Option Superblock
fs_read_superblock v = elim (read_block 0 v) [
  | none ↦ none
  | some bytes ↦ some (superblock_of bytes)
]

unfoldable pub fs_write_superblock : List ℕ → Superblock → Volume → Bool × Volume
fs_write_superblock beyond sb v = write_block 0 (superblock_bytes sb ++ beyond) v

-- A block that is read to the start of some memory, which stays as it is where the read fails
abbrev pub load : List ℕ → Option (List ℕ) → List ℕ
load memory none = memory
load memory (some bytes) = store 0 bytes memory

-- The two bitmaps, where both calls of kmalloc succeeded, read from the two blocks behind the inodes
unfoldable pub load_bitmaps : Option (List ℕ) → Option (List ℕ) → Volume → FsResult × Volume
load_bitmaps (some blocks) (some inodes) v =
    let start = add32 1 v.fs.superblock.inode_blocks in
    (
      ok 0,
      record v {
        fs = record v.fs {
          block_bitmap = some (load blocks (read_block start v));
          inode_bitmap = some (load inodes (read_block (add32 start 1) v));
          mounted = true;
        };
      },
    )
load_bitmaps none inodes v =
    (err no_memory, record v { fs = record v.fs { block_bitmap = none; inode_bitmap = inodes } })
load_bitmaps (some blocks) none v = (
  err no_memory,
  record v { fs = record v.fs { block_bitmap = some blocks; inode_bitmap = none } },
)

-- What the superblock's variable holds after the attempt to read it
unfoldable pub mount :
    Option (List ℕ) → Option (List ℕ) → Option Superblock → Volume → FsResult × Volume
mount blocks inodes none v = (err not_found, v)
mount blocks inodes (some sb) v =
    let w = record v { fs = record v.fs { superblock = sb } } in
    if sb.magic == fs_magic then load_bitmaps blocks inodes w else (err not_found, w)

abbrev pub close_all : List FileDescriptor → List FileDescriptor
close_all [] = []
close_all (f ∷ fs) = record f { in_use = false } ∷ close_all fs

-- `blocks` and `inodes` are what the two calls of kmalloc give.
unfoldable pub fs_init : Option (List ℕ) → Option (List ℕ) → Volume → FsResult × Volume
fs_init blocks inodes v =
    let (result, d) = disk_init v.disk in
    let w = record v {
      disk = d;
      fs = record v.fs { file_descriptors = close_all v.fs.file_descriptors };
    } in
    if is_success result
    then mount blocks inodes (fs_read_superblock w) w
    else (err invalid, record v { disk = d })

-- The layout for a number of sectors
unfoldable pub new_superblock : ℕ → Superblock
new_superblock total_sectors =
    let total_blocks = total_sectors / (block_size / sector_size) in
    let total_inodes = total_blocks / 4 in
    let inode_blocks = add32 total_inodes (inodes_per_block - 1) / inodes_per_block in
    let data_blocks = sub32 (sub32 (sub32 total_blocks 1) inode_blocks) 2 in
    record {
      magic = fs_magic;
      total_blocks = total_blocks;
      free_blocks = data_blocks;
      inode_blocks = inode_blocks;
      data_blocks = data_blocks;
      block_size = block_size;
      inodes_per_block = inodes_per_block;
      total_inodes = total_inodes;
      free_inodes = sub32 total_inodes 1;
      root_inode = root_inode;
    }

-- The loop that marks the first `n` blocks; a bit beyond the bitmap's 512 bytes is not in the model.
unfoldable pub mark_used : ℕ → List ℕ → List ℕ
mark_used zero bm = bm
mark_used (suc n) bm = bitmap_set 8 (mark_used n bm) n

-- The part behind the allocation of the bitmaps; the results of the writes are not looked at.
unfoldable pub format_with : Volume → FsResult × Volume
format_with v =
    let sb = v.fs.superblock in
    let blocks = mark_used (1 + sb.inode_blocks + 2) (replicate block_size 0) in
    let inodes = bitmap_set 8 (replicate block_size 0) root_inode in
    let w = (write_block (1 + sb.inode_blocks) blocks v).1 in
    let x = (write_block (1 + sb.inode_blocks + 1) inodes w).1 in
    let y = (fs_write_inode root_inode (new_inode root_inode file_type_directory 7) x).1 in
    (
      ok 0,
      record y {
        fs = record y.fs { block_bitmap = some blocks; inode_bitmap = some inodes; mounted = true };
      },
    )

unfoldable pub allocate_bitmaps : Option (List ℕ) → Option (List ℕ) → Volume → FsResult × Volume
allocate_bitmaps (some blocks) (some inodes) v = format_with v
allocate_bitmaps none inodes v =
    (err no_memory, record v { fs = record v.fs { block_bitmap = none; inode_bitmap = inodes } })
allocate_bitmaps (some blocks) none v = (
  err no_memory,
  record v { fs = record v.fs { block_bitmap = some blocks; inode_bitmap = none } },
)

unfoldable pub fs_format : List ℕ → Option (List ℕ) → Option (List ℕ) → Volume → FsResult × Volume
fs_format beyond blocks inodes v =
    let sb = new_superblock (disk_get_total_sectors v.disk) in
    let (written, w) =
      fs_write_superblock beyond sb (record v { fs = record v.fs { superblock = sb } }) in
    if disk_get_total_sectors v.disk == 0
    then (err invalid, v)
    else (if written then allocate_bitmaps blocks inodes w else (err invalid, w))
