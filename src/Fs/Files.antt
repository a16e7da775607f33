-- ===== src/Fs/Files.antt =====
-- kernel/fs/fs.c: fs_create_directory, fs_create_file and fs_delete_file. The code copies the parent's
-- path into an array of 256 bytes with no test; a path is taken to be shorter.
pub mod Deletion
use trade_kernel.Base.{
  ℕ, ◌-◌, Bool, true, false, List, [], ◌∷◌, Option, none, some, if◌then◌else◌, ◌==◌, take,
  replicate,
}
use trade_kernel.Fs.State.{Fs, Superblock, Inode, FsResult, ok, err, invalid, not_found, exists}
use trade_kernel.Fs.Bitmaps.{fs_allocate_inode, fs_free_inode, fs_free_block}
use trade_kernel.Fs.Inodes.{Volume, fs_read_inode, fs_write_inode}
use trade_kernel.Fs.Directories.{
  find_directory_entry, add_directory_entry, used_blocks, max_filename_length, file_type_directory,
}
use trade_kernel.Fs.Paths.{resolve_path, root_inode, slash, in_buffer}

-- What stands in front of the last slash and behind it
unfoldable pub split_last : List ℕ → Option (List ℕ × List ℕ)
split_last [] = none
split_last (c ∷ cs) = elim (split_last cs) [
  | some (parent, name) ↦ some (c ∷ parent, name)
  | none ↦ if c == slash then some ([], cs) else none
]

abbrev pub root_path : List ℕ
root_path = slash ∷ []

abbrev pub parent_path : List ℕ → List ℕ
parent_path [] = root_path
parent_path (c ∷ cs) = c ∷ cs

abbrev pub short_name : List ℕ → List ℕ
short_name name = take (max_filename_length - 1) name

-- The inode of a new file or directory
abbrev pub new_inode : ℕ → ℕ → ℕ → Inode
new_inode n file_type permissions = record {
  inode_num = n;
  file_type = file_type;
  permissions = permissions;
  reserved = 0;
  size = 0;
  blocks_used = 0;
  created_time = 0;
  modified_time = 0;
  direct_blocks = replicate 12 0;
  indirect_block = 0;
  double_indirect = 0;
}

-- The second half of both functions, from the test whether the name exists on
unfoldable pub create_in : List ℕ → ℕ → List ℕ → ℕ → ℕ → Volume → FsResult × Volume
create_in stack parent name file_type permissions v =
    elim (find_directory_entry parent (in_buffer stack name) v) [
      | some e ↦ (err exists, v)
      | none ↦
          let (result, s) = fs_allocate_inode v.fs in
          let w = record v { fs = s } in
          elim result [
            | err e ↦ (err e, w)
            | ok n ↦
                let (written, x) = fs_write_inode n (new_inode n file_type permissions) w in
                if written
                then add_directory_entry parent (in_buffer stack name) n file_type x
                else (err invalid, record x { fs = (fs_free_inode n x.fs).1 })
          ]
    ]

-- A path with no slash names an entry of the root. The path "/" always resolves, so that the fallback to the root
-- is not reached.
unfoldable pub fs_create_directory : List ℕ → List ℕ → Volume → FsResult × Volume
fs_create_directory stack path v =
    if v.fs.mounted
    then elim (split_last path) [
      | none ↦ create_in stack root_inode (short_name path) file_type_directory 7 v
      | some (parent, name) ↦ elim (resolve_path stack (parent_path parent) v) [
        | some n ↦ create_in stack n (short_name name) file_type_directory 7 v
        | none ↦ (err not_found, v)
      ]
    ]
    else (err invalid, v)

unfoldable pub fs_create_file : List ℕ → List ℕ → ℕ → Volume → FsResult × Volume
fs_create_file stack path file_type v =
    if v.fs.mounted
    then elim (split_last path) [
      | none ↦ (err invalid, v)
      | some (parent, name) ↦ elim (resolve_path stack (parent_path parent) v) [
        | some n ↦ create_in stack n (short_name name) file_type 6 v
        | none ↦ (err not_found, v)
      ]
    ]
    else (err invalid, v)

unfoldable pub free_blocks : List ℕ → Fs → Fs
free_blocks [] s = s
free_blocks (b ∷ bs) s = free_blocks bs (if b == 0 then s else (fs_free_block b s).1)

unfoldable pub fs_delete_file : List ℕ → List ℕ → Volume → FsResult × Volume
fs_delete_file stack path v =
    if v.fs.mounted
    then elim (resolve_path stack path v) [
      | none ↦ (err not_found, v)
      | some n ↦ elim (fs_read_inode n v) [
        | none ↦ (err invalid, v)
        | some i ↦ (ok 0, record v { fs = (fs_free_inode n (free_blocks (used_blocks i) v.fs)).1 })
      ]
    ]
    else (err invalid, v)
