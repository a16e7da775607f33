-- ===== src/Fs/Directories.antt =====
-- kernel/fs/fs.c: find_directory_entry, add_directory_entry and the walk of fs_list_directory over the
-- blocks of a directory. A name is the array that holds it: the text, a terminator, and what the array
-- held before; an index beyond the array reads as 0.
pub mod Entries
pub mod Lookup
pub mod Added
use trade_kernel.Base.{
  ℕ, zero, suc, ◌+◌, ◌-◌, ◌*◌, ◌/◌, min, Bool, true, false, ◌&&◌, ◌||◌, not, List, [], ◌∷◌, ◌++◌,
  Option, none, some, if◌then◌else◌, ltb, leb, ◌==◌, length, get_or, set, take, replicate,
  find_from, add32,
}
use trade_kernel.Fs.State.{
  Fs, Superblock, Inode, DirectoryEntry, FsResult, ok, err, invalid, no_space, block_size,
}
use trade_kernel.Fs.Layout.{entry_bytes, entry_of, slice, store}
use trade_kernel.Fs.Bitmaps.{fs_allocate_block}
use trade_kernel.Fs.Inodes.{Volume, read_block, write_block, fs_read_inode, fs_write_inode}

abbrev pub max_filename_length : ℕ
max_filename_length = 32

abbrev pub file_type_directory : ℕ
file_type_directory = 2

-- sizeof(directory_entry_t)
abbrev pub entry_size : ℕ
entry_size = 40

abbrev pub entries_per_block : ℕ
entries_per_block = block_size / entry_size

abbrev pub entry_at : List ℕ → ℕ → DirectoryEntry
entry_at block j = entry_of (slice block (j * entry_size) entry_size)

abbrev pub store_entry : List ℕ → ℕ → DirectoryEntry → List ℕ
store_entry block j e = store (j * entry_size) (entry_bytes e) block

-- The loop that compares the names up to the end of the shorter one
unfoldable pub names_match : ℕ → List ℕ → List ℕ → Bool
names_match zero name stored = true
names_match (suc n) [] stored = true
names_match (suc n) (c ∷ cs) [] = true
names_match (suc n) (c ∷ cs) (d ∷ ds) =
    let rest = names_match n cs ds in
    if c == 0 || d == 0 then true else (if c == d then rest else false)

-- `entry.inode_num != 0`, the names match, and `name` ends where the stored name does
abbrev pub is_entry : List ℕ → DirectoryEntry → Bool
is_entry name e =
    not (e.inode_num == 0)
    && names_match max_filename_length name e.name
    && get_or name e.name_length 0 == 0

-- The blocks that the loops `i < blocks_used && i < 12` visit
abbrev pub used_blocks : Inode → List ℕ
used_blocks i = take (min i.blocks_used 12) i.direct_blocks

unfoldable pub find_in_block : List ℕ → List ℕ → Option DirectoryEntry
find_in_block name block =
    elim (find_from (λ j. is_entry name (entry_at block j)) entries_per_block 0) [
      | none ↦ none
      | some j ↦ some (entry_at block j)
    ]

-- One round of the loop over the blocks: the block's number, what it holds, and the rest of the loop
unfoldable pub find_step :
    List ℕ → ℕ → Option (List ℕ) → Option DirectoryEntry → Option DirectoryEntry
find_step name b none rest = rest
find_step name b (some block) rest =
    if b == 0 then rest else elim (find_in_block name block) [ none ↦ rest | some e ↦ some e ]

unfoldable pub find_in_blocks : List ℕ → List ℕ → Volume → Option DirectoryEntry
find_in_blocks name [] v = none
find_in_blocks name (b ∷ bs) v = find_step name b (read_block b v) (find_in_blocks name bs v)

-- `none` for both error codes, which the callers do not tell apart
unfoldable pub find_directory_entry : ℕ → List ℕ → Volume → Option DirectoryEntry
find_directory_entry dir name v = elim (fs_read_inode dir v) [
  | none ↦ none
  | some i ↦
      if i.file_type == file_type_directory then find_in_blocks name (used_blocks i) v else none
]

-- The text of a name, at most `n` bytes of it
unfoldable pub text_of : ℕ → List ℕ → List ℕ
text_of zero name = []
text_of (suc n) [] = []
text_of (suc n) (c ∷ cs) = let rest = text_of n cs in if c == 0 then [] else c ∷ rest

-- The entry in a slot after the copy of the name; the bytes behind the terminator stay.
unfoldable pub fill_entry : List ℕ → ℕ → ℕ → DirectoryEntry → DirectoryEntry
fill_entry name inode_num file_type e =
    let text = text_of (max_filename_length - 1) name in
    record e {
      inode_num = inode_num;
      name_length = length text;
      file_type = file_type;
      name = store 0 (text ++ (0 ∷ [])) e.name;
    }

abbrev pub free_slot : List ℕ → Option ℕ
free_slot block = find_from (λ j. (entry_at block j).inode_num == 0) entries_per_block 0

-- The block with the first free slot, what it holds, and the slot
unfoldable pub slot_step : ℕ → Option (List ℕ) → Option (ℕ × List ℕ × ℕ) → Option (ℕ × List ℕ × ℕ)
slot_step b none rest = rest
slot_step b (some block) rest =
    if b == 0 then rest else elim (free_slot block) [ none ↦ rest | some j ↦ some (b, block, j) ]

unfoldable pub find_free_slot : List ℕ → Volume → Option (ℕ × List ℕ × ℕ)
find_free_slot [] v = none
find_free_slot (b ∷ bs) v = slot_step b (read_block b v) (find_free_slot bs v)

abbrev pub zero_block : List ℕ
zero_block = replicate block_size 0

-- The results of the writes are not looked at.
unfoldable pub add_to_slot : ℕ → Inode → ℕ → List ℕ → Volume → FsResult × Volume
add_to_slot dir i b block v =
    let w = (write_block b block v).1 in
    (ok 0, (fs_write_inode dir (record i { size = add32 i.size entry_size }) w).1)

unfoldable pub add_block : ℕ → Inode → List ℕ → Volume → FsResult × Volume
add_block dir i block v =
    if leb 12 i.blocks_used
    then (err no_space, v)
    else (let (result, s) = fs_allocate_block v.fs in
        elim result [
          | err e ↦ (err e, record v { fs = s })
          | ok b ↦
              let w = (write_block b block (record v { fs = s })).1 in
              let j = record i {
                direct_blocks = set i.direct_blocks i.blocks_used b;
                blocks_used = add32 i.blocks_used 1;
                size = add32 i.size entry_size;
              } in
              (ok 0, (fs_write_inode dir j w).1)
        ])

unfoldable pub add_directory_entry : ℕ → List ℕ → ℕ → ℕ → Volume → FsResult × Volume
add_directory_entry dir name entry_inode_num file_type v =
    let filled : List ℕ → ℕ → List ℕ = λ block j.
      store_entry block j (fill_entry name entry_inode_num file_type (entry_at block j)) in
    elim (fs_read_inode dir v) [
      | none ↦ (err invalid, v)
      | some i ↦
          if i.file_type == file_type_directory
          then elim (find_free_slot (used_blocks i) v) [
            | some (b, block, j) ↦ add_to_slot dir i b (filled block j) v
            | none ↦ add_block dir i (filled zero_block 0) v
          ]
          else (err invalid, v)
    ]

-- The entries in use of one block, at most `room`
unfoldable pub list_entries : List ℕ → ℕ → ℕ → ℕ → List DirectoryEntry
list_entries block zero j room = []
list_entries block (suc n) j room =
    let e = entry_at block j in
    let skip = list_entries block n (j + 1) room in
    let taken = e ∷ list_entries block n (j + 1) (room - 1) in
    if room == 0 then [] else (if e.inode_num == 0 then skip else taken)

unfoldable pub list_blocks : List ℕ → ℕ → Volume → List DirectoryEntry
list_blocks [] room v = []
list_blocks (b ∷ bs) room v =
    let listed = if b == 0 then [] else elim (read_block b v) [
      | none ↦ []
      | some block ↦ list_entries block entries_per_block 0 room
    ] in
    listed ++ list_blocks bs (room - length listed) v
