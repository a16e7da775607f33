-- ===== src/Fs/Files/Deletion.antt =====
-- kernel/fs/fs.c: what fs_delete_file leaves on the disk.
use trade_kernel.Base.{
  ℕ, zero, suc, ◌≡◌, ◌∙◌, refl, inl, inr, Bool, true, false, ◌||◌, List, [], ◌∷◌, some,
  if◌then◌else◌, leb, ltb, ◌==◌, length, Bool-cases, Option-cases, arith, bitmap_clear,
}
use trade_kernel.Fs.State.{Fs, Inode, ok}
use trade_kernel.Fs.Bitmaps.{fs_free_inode, fs_free_block}
use trade_kernel.Fs.Inodes.{Volume, is_no_inode, inode_block, read_block, fs_read_inode}
use trade_kernel.Fs.Directories.{find_directory_entry, find_in_blocks, used_blocks}
use trade_kernel.Fs.Paths.{
  resolve_path, resolve_from, find_component, until_slash, skip_slash, in_buffer, root_inode,
}
use trade_kernel.Fs.Files.{fs_delete_file, free_blocks}

-- Reading depends on the disk and on the two totals of the superblock only.
module _ (v : Volume) (s : Fs) (blocks : s.superblock.total_blocks ≡ v.fs.superblock.total_blocks)
    (inodes : s.superblock.total_inodes ≡ v.fs.superblock.total_inodes) where
  read_block_kept : (n : ℕ) → read_block n (record v { fs = s }) ≡ read_block n v
  unfolding read_block
  read_block_kept n = rw blocks refl

  pub fs_read_inode_kept : (n : ℕ) → fs_read_inode n (record v { fs = s }) ≡ fs_read_inode n v
  unfolding fs_read_inode
  fs_read_inode_kept n = rw (read_block_kept (inode_block n), inodes) refl

  find_in_blocks_kept :
      (name bs : List ℕ) → find_in_blocks name bs (record v { fs = s }) ≡ find_in_blocks name bs v
  unfolding find_in_blocks
  find_in_blocks_kept name [] = refl
  find_in_blocks_kept name (b ∷ bs) = rw (read_block_kept b, find_in_blocks_kept name bs) refl

  find_directory_entry_kept :
      (dir : ℕ) (name : List ℕ)
      → find_directory_entry dir name (record v { fs = s }) ≡ find_directory_entry dir name v
  unfolding find_directory_entry
  find_directory_entry_kept dir name = elim (Option-cases (fs_read_inode dir v)) [
    | inl e ↦ rw (fs_read_inode_kept dir, e, find_directory_entry) refl
    | inr (i, e) ↦
        rw
          (
            fs_read_inode_kept dir,
            e,
            find_directory_entry,
            find_in_blocks_kept name (used_blocks i),
          )
          refl
  ]

  find_component_kept :
      (stack : List ℕ) (dir : ℕ) (name : List ℕ)
      → find_component stack dir name (record v { fs = s }) ≡ find_component stack dir name v
  find_component_kept stack dir name =
      rw (find_directory_entry_kept dir (in_buffer stack name)) refl

  resolve_from_kept :
      (stack : List ℕ) (fuel current : ℕ) (path : List ℕ)
      → resolve_from stack fuel current path (record v { fs = s })
        ≡ resolve_from stack fuel current path v
  unfolding resolve_from
  resolve_from_kept stack zero current path = refl
  resolve_from_kept stack (suc fuel) current [] = refl
  resolve_from_kept stack (suc fuel) current (c ∷ cs) =
      let (name, rest) = until_slash (c ∷ cs) in
      elim (Option-cases (find_component stack current name v)) [
        | inl e ↦ rw (find_component_kept stack current name, e, resolve_from) refl
        | inr (d, e) ↦
            rw (find_component_kept stack current name, e, resolve_from)
              (resolve_from_kept stack fuel d.inode_num (skip_slash rest))
      ]

  resolve_path_kept :
      (stack path : List ℕ)
      → resolve_path stack path (record v { fs = s }) ≡ resolve_path stack path v
  unfolding resolve_path
  resolve_path_kept stack [] = refl
  resolve_path_kept stack (c ∷ cs) =
      rw (resolve_from_kept stack (suc (length cs)) root_inode cs) refl

-- Freeing changes neither the totals nor, for a block, the bitmap of the inodes.
pub record KeepsTotals (s t : Fs) : Type 0 where
  pub blocks : t.superblock.total_blocks ≡ s.superblock.total_blocks
  pub inodes : t.superblock.total_inodes ≡ s.superblock.total_inodes

fs_free_block-KeepsTotals :
    (b : ℕ) (s : Fs)
    → KeepsTotals s (fs_free_block b s).1 × ((fs_free_block b s).1.inode_bitmap ≡ s.inode_bitmap)
unfolding fs_free_block
fs_free_block-KeepsTotals b s = elim (Option-cases s.block_bitmap) [
  | inl e ↦ rw (e, fs_free_block) (record { blocks = refl; inodes = refl }, refl)
  | inr (bm, e) ↦ elim (Bool-cases (leb s.superblock.total_blocks b)) [
    | inl f ↦ rw (e, f, fs_free_block) (record { blocks = refl; inodes = refl }, refl)
    | inr f ↦ rw (e, f, fs_free_block) (record { blocks = refl; inodes = refl }, refl)
  ]
]

skipped-KeepsTotals :
    (c : Bool) (s t : Fs)
    → KeepsTotals s t × (t.inode_bitmap ≡ s.inode_bitmap)
    → KeepsTotals s (if c then s else t) × ((if c then s else t).inode_bitmap ≡ s.inode_bitmap)
skipped-KeepsTotals true s t k = (record { blocks = refl; inodes = refl }, refl)
skipped-KeepsTotals false s t k = k

free_blocks-KeepsTotals :
    (bs : List ℕ) (s : Fs)
    → KeepsTotals s (free_blocks bs s) × ((free_blocks bs s).inode_bitmap ≡ s.inode_bitmap)
unfolding free_blocks
free_blocks-KeepsTotals [] s = (record { blocks = refl; inodes = refl }, refl)
free_blocks-KeepsTotals (b ∷ bs) s =
    let (k, m) =
      skipped-KeepsTotals (b == 0) s (fs_free_block b s).1 (fs_free_block-KeepsTotals b s) in
    let (l, o) = free_blocks-KeepsTotals bs (if b == 0 then s else (fs_free_block b s).1) in
    (record { blocks = l.blocks ∙ k.blocks; inodes = l.inodes ∙ k.inodes }, o ∙ m)

fs_free_inode-KeepsTotals :
    (n : ℕ) (s : Fs) (bm : List ℕ)
    → s.inode_bitmap ≡ some bm
    → (n == 0 || ltb s.superblock.total_inodes n) ≡ false
    → KeepsTotals s (fs_free_inode n s).1
      × ((fs_free_inode n s).1.inode_bitmap ≡ some (bitmap_clear 8 bm n))
unfolding fs_free_inode
fs_free_inode-KeepsTotals n s bm e f =
    rw (e, fs_free_inode, f) (record { blocks = refl; inodes = refl }, refl)

readable : (n : ℕ) (i : Inode) (v : Volume) → fs_read_inode n v ≡ some i → is_no_inode n v ≡ false
unfolding fs_read_inode
readable n i v e = elim (Bool-cases (is_no_inode n v)) [ inl f ↦ absurd (ground arith) | inr f ↦ f ]

-- fs_delete_file of a path that resolves to a readable inode returns 0 and marks the inode free in the bitmap. It
-- writes nothing to the disk, so that every path resolves to the same inode as before, the path of the
-- file that was deleted included.
pub resolve_path-fs_delete_file :
    (stack path : List ℕ) (n : ℕ) (i : Inode) (bm : List ℕ) (v : Volume)
    → v.fs.mounted ≡ true
    → resolve_path stack path v ≡ some n
    → fs_read_inode n v ≡ some i
    → v.fs.inode_bitmap ≡ some bm
    → let (result, w) = fs_delete_file stack path v in
      (result ≡ ok 0)
      × (w.fs.inode_bitmap ≡ some (bitmap_clear 8 bm n))
      × (w.disk ≡ v.disk)
      × ((other : List ℕ) → resolve_path stack other w ≡ resolve_path stack other v)
unfolding fs_delete_file
resolve_path-fs_delete_file stack path n i bm v m p r b =
    let s = free_blocks (used_blocks i) v.fs in
    let (k, o) = free_blocks-KeepsTotals (used_blocks i) v.fs in
    let low : (n == 0 || ltb s.superblock.total_inodes n) ≡ false =
      rw k.inodes (readable n i v r) in
    let (l, c) = fs_free_inode-KeepsTotals n s bm (o ∙ b) low in
    let t = (fs_free_inode n s).1 in
    let shape : fs_delete_file stack path v ≡ (ok 0, record v { fs = t }) = simp (m, p, r) in
    rw shape (
      refl,
      c,
      refl,
      (λ other. resolve_path_kept v t (l.blocks ∙ k.blocks) (l.inodes ∙ k.inodes) stack other),
    )
