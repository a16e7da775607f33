-- ===== src/Tests/Disk.antt =====
-- kernel/fs: a disk of sixteen sectors.
use trade_kernel.Base.{
  ℕ, zero, suc, ◌<◌, ◌≡◌, ◌≢◌, ap, inl, inr, true, false, List, [], ◌∷◌, none, some, length, get_or,
  replicate, find_from, test_bit, refl, arith, bitmap_clear,
}
use trade_kernel.Fs.State.{Fs, Superblock, Inode, DirectoryEntry, ok, err, not_found}
use trade_kernel.Fs.Layout.{entry_of, slice, store, inode_bytes}
use trade_kernel.Fs.Layout.Slices.{length-store}
use trade_kernel.Fs.Layout.RoundTrips.{IsInode}
use trade_kernel.Fs.Disk.{
  Disk, Drive, disk_wait_ready, disk_wait_data, disk_timeout, disk_init, disk_success,
}
use trade_kernel.Fs.Disk.Service.{Serves}
use trade_kernel.Fs.Bitmaps.Blocks.{IsValid}
use trade_kernel.Fs.Descriptors.{no_descriptor}
use trade_kernel.Fs.Inodes.{Volume, read_block, fs_read_inode, fs_write_inode, is_success}
use trade_kernel.Fs.Inodes.Blocks.{IsServed, put_block-IsServed, read_block_served}
use trade_kernel.Fs.Inodes.ReadWrite.{written, read_back, fs_read_inode-fs_write_inode}
use trade_kernel.Fs.Directories.{
  find_directory_entry, find_in_blocks, find_step, find_in_block, find_free_slot, slot_step,
  free_slot, used_blocks, names_match, add_directory_entry,
}
use trade_kernel.Fs.Directories.Lookup.{IsDirectory}
use trade_kernel.Fs.Directories.Added.{find_directory_entry-add_directory_entry}
use trade_kernel.Fs.Files.{new_inode, fs_delete_file, root_path}
use trade_kernel.Fs.Files.Deletion.{resolve_path-fs_delete_file}
use trade_kernel.Fs.Format.{fs_format, fs_init}
use trade_kernel.Fs.Format.Root.{HasEmptyRoot, fs_format-HasEmptyRoot}
use trade_kernel.Fs.Format.Fresh.{fs_init-not_found}
use trade_kernel.Fs.Paths.{resolve_path, resolve_from, root_inode}
use trade_kernel.Fs.Paths.Walk.{path_of, walk, resolve_path-walk}

-- Each status has DRDY and DRQ set.
abbrev drive : Drive
drive = record {
  selected = λ i. 72;
  status = 72;
  identified = λ i. 72;
  identify_data = replicate 256 0;
  before = λ lba i. 72;
  requested = λ lba i. 72;
  after = λ lba i. 72;
}

abbrev zeros : List ℕ
zeros = replicate 512 0

abbrev blank : Disk
blank = record { present = true; total_sectors = 16; drive = drive; sectors = replicate 16 zeros }

get_or-inside : (n i : ℕ) (a : List ℕ) → i < n → get_or (replicate n a) i [] ≡ a
get_or-inside zero i a h = absurd (omega arith)
get_or-inside (suc n) zero a h = refl
get_or-inside (suc n) (suc i) a h = get_or-inside n i a (omega arith)

ready : disk_wait_ready (λ i. 72) disk_timeout 0 ≡ disk_success
unfolding disk_wait_ready test_bit
ready = refl

answered : disk_wait_data (λ i. 72) disk_timeout 0 ≡ disk_success
unfolding disk_wait_data test_bit
answered = refl

blank-Serves : (n : ℕ) → n < 16 → Serves blank n
blank-Serves n h = record {
  present = refl;
  small = omega arith;
  low = h;
  stored = h;
  size = ap (λ (b : List ℕ). length b) (get_or-inside 16 n zeros h);
  before = ready;
  requested = answered;
  after = ready;
}

abbrev superblock : Superblock
superblock = record {
  magic = 0;
  total_blocks = 16;
  free_blocks = 12;
  inode_blocks = 1;
  data_blocks = 12;
  block_size = 512;
  inodes_per_block = 6;
  total_inodes = 4;
  free_inodes = 3;
  root_inode = 1;
}

abbrev fs : Fs
fs = record {
  mounted = true;
  superblock = superblock;
  file_descriptors = no_descriptor ∷ [];
  block_bitmap = some zeros;
  inode_bitmap = some zeros;
}

abbrev volume : Volume
volume = record { fs = fs; disk = blank }

volume-IsServed : (n : ℕ) → n < 16 → IsServed volume n
volume-IsServed n h = record { low = h; drive = blank-Serves n h }

abbrev directory : Inode
directory = record (new_inode 1 2 7) { blocks_used = 1; direct_blocks = 5 ∷ replicate 11 0 }

directory-IsInode : IsInode directory
directory-IsInode = record {
  inode_num = omega arith;
  reserved = omega arith;
  size = omega arith;
  blocks_used = omega arith;
  created_time = omega arith;
  modified_time = omega arith;
  blocks = omega arith;
  twelve = refl;
  indirect_block = omega arith;
  double_indirect = omega arith;
}

fs_read_inode-fs_write_inode_example :
    let (result, w) = fs_write_inode 1 directory volume in
    (result ≡ true)
    × (w.fs ≡ volume.fs)
    × (fs_read_inode 1 w ≡ some directory)
    × ((m : ℕ) → m ≢ 1 → fs_read_inode m w ≡ fs_read_inode m volume)
fs_read_inode-fs_write_inode_example =
    fs_read_inode-fs_write_inode 1 directory volume refl (volume-IsServed 1 (omega arith))
      directory-IsInode

fs_format-HasEmptyRoot_example :
    let (result, w) = fs_format (replicate 472 0) (some zeros) (some zeros) volume in
    (result ≡ ok 0) × HasEmptyRoot [] 32 w × ((bm : List ℕ) × IsValid w.fs bm)
fs_format-HasEmptyRoot_example =
    fs_format-HasEmptyRoot [] (replicate 472 0) zeros zeros 32 volume (omega arith) (omega arith)
      refl blank-Serves

abbrev started : Volume
started = record volume {
  fs = record fs { mounted = false; superblock = record superblock { total_blocks = 0 } };
}

initialises : is_success (disk_init blank).0 ≡ true
unfolding disk_init disk_wait_ready disk_wait_data test_bit
initialises = refl

fs_init-not_found_example :
    let (result, w) = fs_init (some zeros) (some zeros) started in
    (result ≡ err not_found) × (w.fs.mounted ≡ false) × (w.fs.superblock ≡ started.fs.superblock)
fs_init-not_found_example = fs_init-not_found (some zeros) (some zeros) started refl initialises

abbrev names : List ℕ
names = 100 ∷ []

resolve_path-walk_example :
    resolve_path [] (path_of (names ∷ [])) volume ≡ walk [] (names ∷ []) root_inode volume
resolve_path-walk_example = resolve_path-walk [] names [] volume (omega arith)

-- The volume with the directory as inode 1; its block 5 is empty.
abbrev filled : Volume
filled = written 1 directory volume

filled-IsServed : (n : ℕ) → n < 16 → IsServed filled n
filled-IsServed n h =
    put_block-IsServed 1 n (store 0 (inode_bytes directory) zeros) volume
      (length-store 0 (inode_bytes directory) zeros) (volume-IsServed n h)

filled_root : fs_read_inode 1 filled ≡ some directory
filled_root = read_back 1 directory volume refl (volume-IsServed 1 (omega arith)) directory-IsInode

filled-IsDirectory : IsDirectory 1 directory filled
filled-IsDirectory = record {
  read = filled_root;
  kind = refl;
  fits = directory-IsInode;
  valid = refl;
  served = filled-IsServed 1 (omega arith);
  blocks = λ c m. elim m [ inl e ↦ filled-IsServed c (omega arith) | inr x ↦ absurd x ];
  apart = λ c m. elim m [ inl e ↦ (λ q. omega arith) | inr x ↦ absurd x ];
}

block_5 : read_block 5 filled ≡ some zeros
block_5 = read_block_served 5 filled (filled-IsServed 5 (omega arith))

no_entry : find_in_block (100 ∷ 0 ∷ []) zeros ≡ none
unfolding find_in_block find_from entry_of slice names_match
no_entry = refl

first_free : free_slot zeros ≡ some 0
unfolding find_from entry_of slice
first_free = refl

free_at : find_free_slot (used_blocks directory) filled ≡ some (5, zeros, 0)
unfolding find_free_slot slot_step
free_at = rw (block_5, first_free) refl

not_yet : find_directory_entry 1 (100 ∷ 0 ∷ []) filled ≡ none
unfolding find_directory_entry find_in_blocks find_step
not_yet = rw (filled_root, find_directory_entry, block_5, no_entry) refl

-- "d" is added as inode 2.
find_directory_entry-add_directory_entry_example :
    let (result, x) = add_directory_entry 1 (100 ∷ 0 ∷ []) 2 1 filled in
    (result ≡ ok 0)
    × ((e : DirectoryEntry) × (find_directory_entry 1 (100 ∷ 0 ∷ []) x ≡ some e)
        × (e.inode_num ≡ 2)
        × (e.file_type ≡ 1))
    × (x.fs ≡ filled.fs)
find_directory_entry-add_directory_entry_example =
    find_directory_entry-add_directory_entry (100 ∷ []) [] 2 1 1 directory filled 5 zeros 0
      (omega arith) (omega arith) (omega arith) (omega arith) filled-IsDirectory free_at not_yet

root_resolves : resolve_path [] root_path filled ≡ some 1
unfolding resolve_path resolve_from
root_resolves = refl

resolve_path-fs_delete_file_example :
    let (result, w) = fs_delete_file [] root_path filled in
    (result ≡ ok 0)
    × (w.fs.inode_bitmap ≡ some (bitmap_clear 8 zeros 1))
    × (w.disk ≡ filled.disk)
    × ((other : List ℕ) → resolve_path [] other w ≡ resolve_path [] other filled)
resolve_path-fs_delete_file_example =
    resolve_path-fs_delete_file [] root_path 1 directory zeros filled refl root_resolves filled_root
      refl
