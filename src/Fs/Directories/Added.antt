-- ===== src/Fs/Directories/Added.antt =====
-- kernel/fs/fs.c: an entry that add_directory_entry writes to a free slot of a directory is found.
use trade_kernel.Base.{
  ℕ, ◌*◌, ◌≤◌, ◌≡◌, ◌≢◌, ◌∙◌, refl, sym, ap, true, List, ◌∷◌, ◌++◌, none, some, ◌==◌, length,
}
use trade_kernel.Fs.State.{Inode, DirectoryEntry, ok}
use trade_kernel.Fs.Layout.RoundTrips.{IsWord}
use trade_kernel.Fs.Layout.{entry_bytes}
use trade_kernel.Fs.Layout.Slices.{length-store}
use trade_kernel.Fs.Disk.{sector_size}
use trade_kernel.Fs.Inodes.{Volume, read_block, inode_block}
use trade_kernel.Fs.Inodes.Blocks.{
  IsServed, put_block, held_at, read_block_served, write_block_served, put_block-IsServed,
  read_block-put_block_self, read_block-put_block_ne,
}
use trade_kernel.Fs.Inodes.ReadWrite.{written, fs_write_inode_lem, read_back}
use trade_kernel.Fs.Directories.{
  find_directory_entry, find_free_slot, used_blocks, add_directory_entry, add_to_slot, fill_entry,
  entry_at, store_entry, file_type_directory,
}
use trade_kernel.Fs.Directories.Entries.{IsText, find_in_block-store_entry}
use trade_kernel.Fs.Directories.Lookup.{
  IsSlot, IsDirectory, find_free_slot-IsSlot, find_in_blocks-found, find_in_blocks-none, grown,
  grown-IsInode, not_found_in,
}

module _ (text rest : List ℕ) (t : IsText text) (short : length text ≤ 31) (inode_num file_type : ℕ)
    (word : IsWord inode_num) (nz : inode_num ≢ 0) (dir : ℕ) (i : Inode) (v : Volume)
    (d : IsDirectory dir i v) (b : ℕ) (block : List ℕ) (j : ℕ)
    (f : find_free_slot (used_blocks i) v ≡ some (b, block, j)) where
  abbrev name : List ℕ
  name = text ++ (0 ∷ rest)

  abbrev entry : DirectoryEntry
  entry = fill_entry name inode_num file_type (entry_at block j)

  abbrev filled : List ℕ
  filled = store_entry block j entry

  slot : IsSlot (used_blocks i) v b block j
  slot = find_free_slot-IsSlot (used_blocks i) v b block j f

  b-IsServed : IsServed v b
  b-IsServed = d.blocks b slot.visited

  length-block : length block ≡ sector_size
  length-block =
      let same : some (held_at b v) ≡ some block =
        sym (read_block_served b v b-IsServed) ∙ slot.read in
      let e : held_at b v ≡ block = cc same in sym (ap length e) ∙ b-IsServed.drive.size

  length-filled : length filled ≡ sector_size
  length-filled = length-store (j * 40) (entry_bytes entry) block ∙ length-block

  abbrev w : Volume
  w = put_block b filled v

  w-IsServed : IsServed w (inode_block dir)
  w-IsServed = put_block-IsServed b (inode_block dir) filled v length-filled d.served

  -- The volume that add_directory_entry leaves
  abbrev x : Volume
  x = written dir (grown i) w

  kind : (i.file_type == file_type_directory) ≡ true
  kind = rw d.kind refl

  added : add_directory_entry dir name inode_num file_type v ≡ (ok 0, x)
  unfolding add_directory_entry add_to_slot grown
  added =
      rw
        (
          d.read,
          add_directory_entry,
          kind,
          f,
          add_to_slot,
          write_block_served b filled v b-IsServed length-filled,
          fs_write_inode_lem dir (grown i) w d.valid w-IsServed (grown-IsInode i d.fits),
        )
        refl

  read_kept : (c : ℕ) → c ≢ inode_block dir → c ≢ b → read_block c x ≡ read_block c v
  read_kept c p q =
      read_block-put_block_ne (inode_block dir) c _ w w-IsServed p
      ∙ read_block-put_block_ne b c filled v b-IsServed q

  read_filled : read_block b x ≡ some filled
  read_filled =
      read_block-put_block_ne (inode_block dir) b _ w w-IsServed (d.apart b slot.visited)
      ∙ read_block-put_block_self b filled v b-IsServed length-filled

  added_found :
      find_directory_entry dir name v ≡ none → find_directory_entry dir name x ≡ some entry
  unfolding grown
  added_found nf =
      not_found_in dir name (grown i) x
        (read_back dir (grown i) w d.valid w-IsServed (grown-IsInode i d.fits)) d.kind
      ∙ find_in_blocks-found name (used_blocks i) v x b filled entry
          (sym (not_found_in dir name i v d.read d.kind) ∙ nf) slot.visited slot.number read_filled
          (find_in_block-store_entry text rest t short inode_num file_type word nz block j
            length-block slot.low
            (find_in_blocks-none name (used_blocks i) v b block
              (sym (not_found_in dir name i v d.read d.kind) ∙ nf) slot.visited slot.number
              slot.read))
          (λ c m ne. read_kept c (d.apart c m) ne)

-- In a directory whose inode fits its fields, where the drive serves the block of the inode and the blocks of the
-- directory, which are different from it, with a free slot in one of them and without the name so far:
-- add_directory_entry of an inode number of 32 bits that is not 0 returns 0, and the name, of at most 31 bytes with a
-- terminator, is then found with the inode number and the type that were given. The filesystem's variables stay
-- as they are.
pub find_directory_entry-add_directory_entry :
    (text rest : List ℕ) (inode_num file_type dir : ℕ) (i : Inode) (v : Volume) (b : ℕ)
    (block : List ℕ) (j : ℕ)
    → IsText text
    → length text ≤ 31
    → IsWord inode_num
    → inode_num ≢ 0
    → IsDirectory dir i v
    → find_free_slot (used_blocks i) v ≡ some (b, block, j)
    → find_directory_entry dir (text ++ (0 ∷ rest)) v ≡ none
    → let (result, x) = add_directory_entry dir (text ++ (0 ∷ rest)) inode_num file_type v in
      (result ≡ ok 0)
      × ((e : DirectoryEntry) × (find_directory_entry dir (text ++ (0 ∷ rest)) x ≡ some e)
          × (e.inode_num ≡ inode_num)
          × (e.file_type ≡ file_type))
      × (x.fs ≡ v.fs)
unfolding fill_entry
find_directory_entry-add_directory_entry text rest inode_num file_type dir i v b block j t short
      word nz d f nf =
    rw (added text rest t short inode_num file_type word nz dir i v d b block j f) (
      refl,
      (
        entry text rest t short inode_num file_type word nz dir i v d b block j f,
        added_found text rest t short inode_num file_type word nz dir i v d b block j f nf,
        refl,
        refl,
      ),
      refl,
    )
