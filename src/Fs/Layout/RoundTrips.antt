-- ===== src/Fs/Layout/RoundTrips.antt =====
-- kernel/fs/fs.h: a structure that fits its fields is read back from its bytes.
use trade_kernel.Base.{
  ℕ, ◌+◌, ◌*◌, ◌/◌, ◌%◌, ◌^◌, ◌<◌, zero, suc, ◌≡◌, refl, subst, ap, ap₂, List, [], ◌∷◌, drop,
  length, arith,
}
use trade_kernel.Fs.State.{Superblock, Inode, DirectoryEntry}
use trade_kernel.Fs.Layout.{
  le32, le32s, words, superblock_bytes, superblock_of, inode_bytes, inode_of, entry_bytes, entry_of,
}

abbrev pub IsWord : ℕ → Type 0
IsWord n = n < 2 ^ 32

abbrev pub AreWords : List ℕ → Type 0
AreWords [] = Unit
AreWords (n ∷ ns) = IsWord n × AreWords ns

word-le32 :
    (n : ℕ)
    → IsWord n
    → n % 256 + 256 * (n / 256 % 256) + 65536 * (n / 65536 % 256) + 16777216 * (n / 16777216 % 256)
      ≡ n
word-le32 n h = omega arith

half-le16 : (n : ℕ) → n < 2 ^ 16 → n % 256 + 256 * (n / 256 % 256) ≡ n
half-le16 n h = omega arith

words-le32s : (ns bs : List ℕ) → AreWords ns → words (length ns) (le32s ns bs) ≡ ns
unfolding words le32s
words-le32s [] bs h = refl
words-le32s (n ∷ ns) bs (w, h) = ap₂ ◌∷◌ (word-le32 n w) (words-le32s ns bs h)

pub record IsInode (i : Inode) : Type 0 where
  pub inode_num : IsWord i.inode_num
  pub reserved : i.reserved < 2 ^ 16
  pub size : IsWord i.size
  pub blocks_used : IsWord i.blocks_used
  pub created_time : IsWord i.created_time
  pub modified_time : IsWord i.modified_time
  pub blocks : AreWords i.direct_blocks
  pub twelve : length i.direct_blocks ≡ 12
  pub indirect_block : IsWord i.indirect_block
  pub double_indirect : IsWord i.double_indirect

pub record IsSuperblock (s : Superblock) : Type 0 where
  pub magic : IsWord s.magic
  pub total_blocks : IsWord s.total_blocks
  pub free_blocks : IsWord s.free_blocks
  pub inode_blocks : IsWord s.inode_blocks
  pub data_blocks : IsWord s.data_blocks
  pub block_size : IsWord s.block_size
  pub inodes_per_block : IsWord s.inodes_per_block
  pub total_inodes : IsWord s.total_inodes
  pub free_inodes : IsWord s.free_inodes
  pub root_inode : IsWord s.root_inode

pub superblock_of-superblock_bytes :
    (s : Superblock) → IsSuperblock s → superblock_of (superblock_bytes s) ≡ s
unfolding superblock_of superblock_bytes
superblock_of-superblock_bytes s h =
    rw
      (
        word-le32 s.magic h.magic,
        word-le32 s.total_blocks h.total_blocks,
        word-le32 s.free_blocks h.free_blocks,
        word-le32 s.inode_blocks h.inode_blocks,
        word-le32 s.data_blocks h.data_blocks,
        word-le32 s.block_size h.block_size,
        word-le32 s.inodes_per_block h.inodes_per_block,
        word-le32 s.total_inodes h.total_inodes,
        word-le32 s.free_inodes h.free_inodes,
        word-le32 s.root_inode h.root_inode,
      )
      refl

pub entry_of-entry_bytes :
    (e : DirectoryEntry)
    → IsWord e.inode_num
    → e.name_length < 2 ^ 16
    → entry_of (entry_bytes e) ≡ e
unfolding entry_of entry_bytes
entry_of-entry_bytes e h l = rw (word-le32 e.inode_num h, half-le16 e.name_length l) refl

abbrev behind : ℕ → ℕ → ℕ
behind k zero = k
behind k (suc n) = suc (suc (suc (suc (behind k n))))

drop-le32s : (k : ℕ) (ns bs : List ℕ) → drop (behind k (length ns)) (le32s ns bs) ≡ drop k bs
unfolding le32s
drop-le32s k [] bs = refl
drop-le32s k (n ∷ ns) bs = drop-le32s k ns bs

length-le32s : (ns bs : List ℕ) → length (le32s ns bs) ≡ behind (length bs) (length ns)
unfolding le32s
length-le32s [] bs = refl
length-le32s (n ∷ ns) bs = ap (λ k. suc (suc (suc (suc k)))) (length-le32s ns bs)

pub length-inode_bytes : (i : Inode) → length i.direct_blocks ≡ 12 → length (inode_bytes i) ≡ 80
unfolding inode_bytes
length-inode_bytes i t =
    let rest = le32 i.indirect_block (le32 i.double_indirect []) in
    let tail : length (le32s i.direct_blocks rest) ≡ 56 =
      subst (λ n. length (le32s i.direct_blocks rest) ≡ behind 8 n) t
        (length-le32s i.direct_blocks rest) in
    omega arith

pub inode_of-inode_bytes : (i : Inode) → IsInode i → inode_of (inode_bytes i) ≡ i
unfolding inode_of inode_bytes
inode_of-inode_bytes i h =
    let rest = le32 i.indirect_block (le32 i.double_indirect []) in
    let blocks : words 12 (le32s i.direct_blocks rest) ≡ i.direct_blocks =
      subst (λ n. words n (le32s i.direct_blocks rest) ≡ i.direct_blocks) h.twelve
        (words-le32s i.direct_blocks rest h.blocks) in
    let first : drop 48 (le32s i.direct_blocks rest) ≡ rest =
      subst (λ n. drop (behind 0 n) (le32s i.direct_blocks rest) ≡ rest) h.twelve
        (drop-le32s 0 i.direct_blocks rest) in
    let second : drop 52 (le32s i.direct_blocks rest) ≡ drop 4 rest =
      subst (λ n. drop (behind 4 n) (le32s i.direct_blocks rest) ≡ drop 4 rest) h.twelve
        (drop-le32s 4 i.direct_blocks rest) in
    rw
      (
        blocks,
        first,
        second,
        word-le32 i.inode_num h.inode_num,
        half-le16 i.reserved h.reserved,
        word-le32 i.size h.size,
        word-le32 i.blocks_used h.blocks_used,
        word-le32 i.created_time h.created_time,
        word-le32 i.modified_time h.modified_time,
        word-le32 i.indirect_block h.indirect_block,
        word-le32 i.double_indirect h.double_indirect,
      )
      refl
