-- ===== src/Fs/Format/Root.antt =====
-- kernel/fs/fs.c: fs_format on a disk that the drive serves.
use trade_kernel.Base.{
  ℕ, ◌+◌, ◌<◌, ◌≤◌, ◌≡◌, ◌∙◌, refl, true, false, List, [], ◌++◌, some, arith, ne→==, length,
  replicate, bitmap_set, length-bitmap_set,
}
use trade_kernel.Fs.State.{Fs, Superblock, Inode, ok}
use trade_kernel.Fs.Layout.{superblock_bytes}
use trade_kernel.Fs.Layout.RoundTrips.{IsInode}
use trade_kernel.Fs.Disk.{sector_size, disk_get_total_sectors}
use trade_kernel.Fs.Disk.Service.{Serves}
use trade_kernel.Fs.Bitmaps.Blocks.{IsValid}
use trade_kernel.Fs.Inodes.{Volume, fs_read_inode, inode_block, is_no_inode}
use trade_kernel.Fs.Inodes.Blocks.{IsServed, put_block, write_block_served, put_block-IsServed}
use trade_kernel.Fs.Inodes.ReadWrite.{written, fs_write_inode_lem, read_back}
use trade_kernel.Fs.Directories.{file_type_directory, list_blocks}
use trade_kernel.Fs.Paths.{root_inode, resolve_path, resolve_from, fs_stat, fs_list_directory}
use trade_kernel.Fs.Files.{new_inode, root_path}
use trade_kernel.Fs.Files.Deletion.{fs_read_inode_kept}
use trade_kernel.Fs.Format.{
  new_superblock, mark_used, format_with, allocate_bitmaps, fs_write_superblock, fs_format,
}
use trade_kernel.Fs.Format.Marks.{length-mark_used, count-mark_used}

abbrev root : Inode
root = new_inode root_inode file_type_directory 7

root-IsInode : IsInode root
root-IsInode = record {
  inode_num = omega arith;
  reserved = omega arith;
  size = omega arith;
  blocks_used = omega arith;
  created_time = omega arith;
  modified_time = omega arith;
  blocks = omega arith;
  twelve = refl;
  indirect_block = omega arith;
  double_indirect = omega arith;
}

-- The layout has room for the superblock, the inodes, the bitmaps and at least one inode.
pub record IsLayout (sb : Superblock) : Type 0 where
  pub system : 3 + sb.inode_blocks ≤ sb.total_blocks
  pub small : sb.total_blocks ≤ 4096
  pub inode_blocks : 1 ≤ sb.inode_blocks
  pub total_inodes : 1 ≤ sb.total_inodes
  pub free : sb.free_blocks + (1 + sb.inode_blocks + 2) ≡ sb.total_blocks

new_superblock-IsLayout : (n : ℕ) → 8 ≤ n → n ≤ 4096 → IsLayout (new_superblock n)
unfolding new_superblock
new_superblock-IsLayout n lo hi = record {
  system = omega arith;
  small = omega arith;
  inode_blocks = omega arith;
  total_inodes = omega arith;
  free = omega arith;
}

module _ (v : Volume) (l : IsLayout v.fs.superblock)
    (all : (n : ℕ) → n < v.fs.superblock.total_blocks → IsServed v n) where
  abbrev start : ℕ
  start = 1 + v.fs.superblock.inode_blocks

  abbrev blocks : List ℕ
  blocks = mark_used (1 + v.fs.superblock.inode_blocks + 2) (replicate 512 0)

  abbrev inodes : List ℕ
  inodes = bitmap_set 8 (replicate 512 0) root_inode

  abbrev w : Volume
  w = put_block start blocks v

  abbrev x : Volume
  x = put_block (start + 1) inodes w

  length-blocks : length blocks ≡ sector_size
  length-blocks = length-mark_used (1 + v.fs.superblock.inode_blocks + 2) (replicate 512 0)

  length-inodes : length inodes ≡ sector_size
  length-inodes = length-bitmap_set 8 (replicate 512 0) root_inode

  w-IsServed : (n : ℕ) → n < v.fs.superblock.total_blocks → IsServed w n
  w-IsServed n h = put_block-IsServed start n blocks v length-blocks (all n h)

  x-IsServed : (n : ℕ) → n < v.fs.superblock.total_blocks → IsServed x n
  x-IsServed n h = put_block-IsServed (start + 1) n inodes w length-inodes (w-IsServed n h)

  root_valid : is_no_inode root_inode x ≡ false
  root_valid = let t = l.total_inodes in ground arith

  root_block-IsServed : IsServed x (inode_block root_inode)
  root_block-IsServed = let s = l.system in x-IsServed 1 (omega arith)

  format_with_lem : format_with v ≡ (
    ok 0,
    record (written root_inode root x) {
      fs = record v.fs { block_bitmap = some blocks; inode_bitmap = some inodes; mounted = true };
    },
  )
  unfolding format_with
  format_with_lem =
      let s = l.system in
      rw
        (
          write_block_served start blocks v (all start (omega arith)) length-blocks,
          write_block_served (start + 1) inodes w (w-IsServed (start + 1) (omega arith))
              length-inodes,
          fs_write_inode_lem root_inode root x root_valid root_block-IsServed root-IsInode,
        )
        refl

  abbrev formatted : Fs
  formatted = record v.fs { block_bitmap = some blocks; inode_bitmap = some inodes; mounted = true }

  read_root :
      fs_read_inode root_inode (record (written root_inode root x) { fs = formatted }) ≡ some root
  read_root =
      fs_read_inode_kept (written root_inode root x) formatted refl refl root_inode
      ∙ read_back root_inode root x root_valid root_block-IsServed root-IsInode

  formatted-IsValid : IsValid formatted blocks
  formatted-IsValid =
      let s = l.system in
      let m = l.small in
      let f = l.free in
      record {
        loaded = refl;
        room = omega (arith, length-blocks);
        small = omega arith;
        counted = omega (
          arith,
          count-mark_used (1 + v.fs.superblock.inode_blocks + 2) v.fs.superblock.total_blocks 512
              (omega arith) (omega arith),
        );
      }

-- A volume whose root directory is readable and empty
pub record HasEmptyRoot (stack : List ℕ) (max_entries : ℕ) (v : Volume) : Type 0 where
  pub mounted : v.fs.mounted ≡ true
  pub stat : fs_stat stack root_path v ≡ some root
  pub listed : fs_list_directory stack root_path max_entries v ≡ (ok 0, [])

empty_root :
    (stack : List ℕ) (max_entries : ℕ) (v : Volume)
    → v.fs.mounted ≡ true
    → fs_read_inode root_inode v ≡ some root
    → HasEmptyRoot stack max_entries v
unfolding fs_stat fs_list_directory resolve_path resolve_from list_blocks
empty_root stack max_entries v m r = record {
  mounted = m;
  stat = rw (r, m) refl;
  listed = rw (r, m) refl;
}

length-superblock_bytes :
    (sb : Superblock) (bs : List ℕ) → length (superblock_bytes sb ++ bs) ≡ 40 + length bs
unfolding superblock_bytes
length-superblock_bytes sb bs = omega arith

-- On a disk of 8 to 4096 sectors that the drive serves, with memory for the bitmaps, fs_format succeeds: the
-- filesystem is mounted, "/" is a directory of size 0 with no entries, and the number of free blocks in the
-- superblock is the number of blocks that the block bitmap leaves clear.
pub fs_format-HasEmptyRoot :
    (stack beyond b1 b2 : List ℕ) (max_entries : ℕ) (v : Volume)
    → 8 ≤ disk_get_total_sectors v.disk
    → disk_get_total_sectors v.disk ≤ 4096
    → length beyond ≡ 472
    → ((n : ℕ) → n < disk_get_total_sectors v.disk → Serves v.disk n)
    → let (result, w) = fs_format beyond (some b1) (some b2) v in
      (result ≡ ok 0) × HasEmptyRoot stack max_entries w × ((bm : List ℕ) × IsValid w.fs bm)
unfolding fs_format fs_write_superblock allocate_bitmaps
fs_format-HasEmptyRoot stack beyond b1 b2 max_entries v lo hi len serve =
    let n = disk_get_total_sectors v.disk in
    let sb = new_superblock n in
    let u : Volume = record v { fs = record v.fs { superblock = sb } } in
    let same : sb.total_blocks ≡ n = unfold new_superblock in omega arith in
    let served : (k : ℕ) → k < sb.total_blocks → IsServed u k =
      λ k h. record { low = h; drive = serve k (omega arith) } in
    let fits : length (superblock_bytes sb ++ beyond) ≡ sector_size =
      omega (arith, length-superblock_bytes sb beyond) in
    let t : Volume = put_block 0 (superblock_bytes sb ++ beyond) u in
    let all : (k : ℕ) → k < sb.total_blocks → IsServed t k =
      λ k h. put_block-IsServed 0 k (superblock_bytes sb ++ beyond) u fits (served k h) in
    let layout = new_superblock-IsLayout n lo hi in
    rw
      (
        ne→== n 0 (λ e. omega arith),
        write_block_served 0 (superblock_bytes sb ++ beyond) u (served 0 (omega arith)) fits,
        format_with_lem t layout all,
      )
      (
        refl,
        empty_root stack max_entries
            (record (written root_inode root (x t layout all)) { fs = formatted t layout all }) refl
            (read_root t layout all),
        (blocks t layout all, formatted-IsValid t layout all),
      )
