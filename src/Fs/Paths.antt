-- ===== src/Fs/Paths.antt =====
-- kernel/fs/fs.c: resolve_path, fs_stat, fs_exists, fs_list_directory and fs_open. A path is the bytes
-- of the text in front of its terminator, and not NULL; `stack` is what the local array for a name holds
-- before the copy.
pub mod Walk
use trade_kernel.Base.{
  ℕ, zero, suc, ◌+◌, Bool, true, false, List, [], ◌∷◌, ◌++◌, Option, none, some, if◌then◌else◌, leb,
  ◌==◌, length, drop,
}
use trade_kernel.Fs.State.{
  Fs, Superblock, Inode, DirectoryEntry, FsResult, ok, err, invalid, not_found,
}
use trade_kernel.Fs.Inodes.{Volume, fs_read_inode}
use trade_kernel.Fs.Directories.{
  find_directory_entry, list_blocks, used_blocks, max_filename_length, file_type_directory,
}
use trade_kernel.Fs.Descriptors.{fs_open}

abbrev pub root_inode : ℕ
root_inode = 1

-- '/'
abbrev pub slash : ℕ
slash = 47

-- The text up to the next slash, and the slash with what follows
unfoldable pub until_slash : List ℕ → List ℕ × List ℕ
until_slash [] = ([], [])
until_slash (c ∷ cs) =
    let (name, rest) = until_slash cs in if c == slash then ([], c ∷ cs) else (c ∷ name, rest)

abbrev pub skip_slash : List ℕ → List ℕ
skip_slash [] = []
skip_slash (c ∷ cs) = if c == slash then cs else c ∷ cs

-- The array after the copy of a name and its terminator
abbrev pub in_buffer : List ℕ → List ℕ → List ℕ
in_buffer stack name = name ++ (0 ∷ drop (length name + 1) stack)

-- The entry of one component of a path
abbrev pub find_component : List ℕ → ℕ → List ℕ → Volume → Option DirectoryEntry
find_component stack dir name v =
    if leb max_filename_length (length name)
    then none
    else find_directory_entry dir (in_buffer stack name) v

unfoldable pub resolve_from : List ℕ → ℕ → ℕ → List ℕ → Volume → Option ℕ
resolve_from stack zero current path v = none
resolve_from stack (suc fuel) current [] v = some current
resolve_from stack (suc fuel) current (c ∷ cs) v =
    let (name, rest) = until_slash (c ∷ cs) in
    elim (find_component stack current name v) [
      | none ↦ none
      | some e ↦ resolve_from stack fuel e.inode_num (skip_slash rest) v
    ]

-- Each round takes a byte of the path at least.
unfoldable pub resolve_path : List ℕ → List ℕ → Volume → Option ℕ
resolve_path stack [] v = none
resolve_path stack (c ∷ cs) v =
    if c == slash then resolve_from stack (suc (length cs)) root_inode cs v else none

-- `none` for each error code
unfoldable pub fs_stat : List ℕ → List ℕ → Volume → Option Inode
fs_stat stack path v =
    if v.fs.mounted
    then elim (resolve_path stack path v) [ none ↦ none | some n ↦ fs_read_inode n v ]
    else none

unfoldable pub fs_exists : List ℕ → List ℕ → Volume → Bool
fs_exists stack path v = elim (fs_stat stack path v) [ none ↦ false | some i ↦ true ]

-- The result, and the entries that are put into the caller's array
unfoldable pub fs_list_directory : List ℕ → List ℕ → ℕ → Volume → FsResult × List DirectoryEntry
fs_list_directory stack path max_entries v =
    if v.fs.mounted
    then elim (resolve_path stack path v) [
      | none ↦ (err not_found, [])
      | some n ↦ elim (fs_read_inode n v) [
        | none ↦ (err invalid, [])
        | some i ↦
            let listed = list_blocks (used_blocks i) max_entries v in
            if i.file_type == file_type_directory
            then (ok (length listed), listed)
            else (err invalid, [])
      ]
    ]
    else (err invalid, [])

-- fs_open with the path resolved and the inode read on this volume
unfoldable pub fs_open_path : List ℕ → List ℕ → ℕ → Volume → FsResult × Volume
fs_open_path stack path flags v =
    let target = resolve_path stack path v in
    let inode : Option Inode = elim target [ none ↦ none | some n ↦ fs_read_inode n v ] in
    let (result, s) = fs_open target inode flags v.fs in (result, record v { fs = s })
