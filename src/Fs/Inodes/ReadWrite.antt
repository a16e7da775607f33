-- ===== src/Fs/Inodes/ReadWrite.antt =====
-- kernel/fs/fs.c: what _fs_write_inode does to the inodes that _fs_read_inode gives afterwards.
use trade_kernel.Base.{
  ℕ, ◌+◌, ◌≤◌, ◌≡◌, ◌≢◌, ◌⊎◌, ◌∙◌, refl, sym, subst, inl, inr, true, false, some, length, ◌==◌,
  ==→eq, Bool-cases, arith,
}
use trade_kernel.Fs.State.{Inode}
use trade_kernel.Fs.Layout.{inode_bytes, slice, store}
use trade_kernel.Fs.Layout.Slices.{length-store, slice-store, slice-store_other}
use trade_kernel.Fs.Layout.RoundTrips.{IsInode, length-inode_bytes, inode_of-inode_bytes}
use trade_kernel.Fs.Disk.{sector_size}
use trade_kernel.Fs.Inodes.{
  Volume, inode_block, inode_offset, inode_size, is_no_inode, fs_read_inode, fs_write_inode,
}
use trade_kernel.Fs.Inodes.Blocks.{
  IsServed, put_block, held_at, read_block_served, write_block_served, read_block-put_block_self,
  read_block-put_block_ne,
}

offset_fits : (n : ℕ) → inode_offset n + inode_size ≤ sector_size
offset_fits n = omega arith

-- Two inodes of one block do not overlap.
offsets_apart :
    (m n : ℕ)
    → m ≢ 0
    → n ≢ 0
    → m ≢ n
    → inode_block m ≡ inode_block n
    → (inode_offset m + inode_size ≤ inode_offset n)
      ⊎ (inode_offset n + inode_size ≤ inode_offset m)
offsets_apart m n mz nz ne e = ground arith

-- The volume after an inode was written
abbrev pub written : ℕ → Inode → Volume → Volume
written n i v =
    put_block (inode_block n) (store (inode_offset n) (inode_bytes i) (held_at (inode_block n) v)) v

module _ (n : ℕ) (i : Inode) (v : Volume) (valid : is_no_inode n v ≡ false)
    (s : IsServed v (inode_block n)) (h : IsInode i) where
  fits : length (store (inode_offset n) (inode_bytes i) (held_at (inode_block n) v)) ≡ sector_size
  fits = length-store (inode_offset n) (inode_bytes i) (held_at (inode_block n) v) ∙ s.drive.size

  room : inode_offset n + length (inode_bytes i) ≤ length (held_at (inode_block n) v)
  room =
      let f = offset_fits n in let z = s.drive.size in omega (arith, length-inode_bytes i h.twelve)

  pub fs_write_inode_lem : fs_write_inode n i v ≡ (true, written n i v)
  unfolding fs_write_inode
  fs_write_inode_lem =
      rw
        (
          valid,
          read_block_served (inode_block n) v s,
          write_block_served (inode_block n)
              (store (inode_offset n) (inode_bytes i) (held_at (inode_block n) v)) v s fits,
        )
        refl

  pub read_back : fs_read_inode n (written n i v) ≡ some i
  unfolding fs_read_inode
  read_back =
      let block = store (inode_offset n) (inode_bytes i) (held_at (inode_block n) v) in
      let bytes : slice block (inode_offset n) inode_size ≡ inode_bytes i =
        subst (λ k. slice block (inode_offset n) k ≡ inode_bytes i) (length-inode_bytes i h.twelve)
          (slice-store (inode_offset n) (inode_bytes i) (held_at (inode_block n) v) room) in
      rw
        (
          valid,
          read_block-put_block_self (inode_block n) block v s fits,
          bytes,
          inode_of-inode_bytes i h,
        )
        refl

  read_other : (m : ℕ) → m ≢ n → fs_read_inode m (written n i v) ≡ fs_read_inode m v
  unfolding fs_read_inode
  read_other m ne =
      let old = held_at (inode_block n) v in
      let block = store (inode_offset n) (inode_bytes i) old in
      elim (Bool-cases (is_no_inode m v)) [
        | inl bad ↦ rw bad refl
        | inr good ↦ elim (Bool-cases (inode_block m == inode_block n)) [
          | inr e ↦
              rw
                (
                  good,
                  read_block-put_block_ne (inode_block n) (inode_block m) block v s
                      (λ q. ground arith),
                )
                refl
          | inl e ↦
              let same : inode_block m ≡ inode_block n = ==→eq (inode_block m) (inode_block n) e in
              let apart : (inode_offset m + inode_size ≤ inode_offset n)
                  ⊎ (inode_offset n + length (inode_bytes i) ≤ inode_offset m) =
                subst
                  (λ k.
                    (inode_offset m + inode_size ≤ inode_offset n)
                    ⊎ (inode_offset n + k ≤ inode_offset m))
                  (sym (length-inode_bytes i h.twelve))
                  (offsets_apart m n (λ z. ground arith) (λ z. ground arith) ne same) in
              let kept : slice block (inode_offset m) inode_size
                  ≡ slice old (inode_offset m) inode_size =
                slice-store_other (inode_offset n) (inode_offset m) inode_size (inode_bytes i) old
                  apart in
              rw
                (
                  good,
                  same,
                  read_block-put_block_self (inode_block n) block v s fits,
                  read_block_served (inode_block n) v s,
                  kept,
                )
                refl
        ]
      ]

-- An inode that fits its fields, written where the drive serves its block: the write succeeds and leaves
-- the filesystem's variables as they are, the inode is read back, and every other inode reads as before.
pub fs_read_inode-fs_write_inode :
    (n : ℕ) (i : Inode) (v : Volume)
    → is_no_inode n v ≡ false
    → IsServed v (inode_block n)
    → IsInode i
    → let (result, w) = fs_write_inode n i v in
      (result ≡ true)
      × (w.fs ≡ v.fs)
      × (fs_read_inode n w ≡ some i)
      × ((m : ℕ) → m ≢ n → fs_read_inode m w ≡ fs_read_inode m v)
fs_read_inode-fs_write_inode n i v valid s h =
    rw (fs_write_inode_lem n i v valid s h)
      (refl, refl, read_back n i v valid s h, read_other n i v valid s h)
