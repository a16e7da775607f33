-- ===== src/Fs/Layout.antt =====
-- kernel/fs/fs.h and fs.c: the packed structures as bytes, little endian as on x86, and their place in a
-- block of 512 bytes.
pub mod RoundTrips
pub mod Slices
use trade_kernel.Base.{
  ℕ, ◌+◌, ◌*◌, ◌/◌, ◌%◌, ◌^◌, zero, suc, List, [], ◌∷◌, ◌++◌, get_or, set, drop,
}
use trade_kernel.Fs.State.{Superblock, Inode, DirectoryEntry}

abbrev pub le16 : ℕ → List ℕ → List ℕ
le16 n bs = n % 256 ∷ n / 256 % 256 ∷ bs

abbrev pub le32 : ℕ → List ℕ → List ℕ
le32 n bs = n % 256 ∷ n / 256 % 256 ∷ n / 65536 % 256 ∷ n / 16777216 % 256 ∷ bs

unfoldable pub le32s : List ℕ → List ℕ → List ℕ
le32s [] bs = bs
le32s (n ∷ ns) bs = le32 n (le32s ns bs)

abbrev pub half : List ℕ → ℕ
half bs = get_or bs 0 0 + 256 * get_or bs 1 0

abbrev pub word : List ℕ → ℕ
word bs = get_or bs 0 0 + 256 * get_or bs 1 0 + 65536 * get_or bs 2 0 + 16777216 * get_or bs 3 0

unfoldable pub words : ℕ → List ℕ → List ℕ
words zero bs = []
words (suc n) bs = word bs ∷ words n (drop 4 bs)

unfoldable pub superblock_bytes : Superblock → List ℕ
superblock_bytes s = le32 s.magic (
    le32 s.total_blocks (
      le32 s.free_blocks (
        le32 s.inode_blocks (
          le32 s.data_blocks (
            le32 s.block_size (
              le32 s.inodes_per_block
                (le32 s.total_inodes (le32 s.free_inodes (le32 s.root_inode [])))))))))

unfoldable pub superblock_of : List ℕ → Superblock
superblock_of bs = record {
  magic = word bs;
  total_blocks = word (drop 4 bs);
  free_blocks = word (drop 8 bs);
  inode_blocks = word (drop 12 bs);
  data_blocks = word (drop 16 bs);
  block_size = word (drop 20 bs);
  inodes_per_block = word (drop 24 bs);
  total_inodes = word (drop 28 bs);
  free_inodes = word (drop 32 bs);
  root_inode = word (drop 36 bs);
}

-- sizeof(inode_t) is 80.
unfoldable pub inode_bytes : Inode → List ℕ
inode_bytes i = le32 i.inode_num (
    i.file_type
    ∷ i.permissions
    ∷ le16 i.reserved (
        le32 i.size (
          le32 i.blocks_used (
            le32 i.created_time (
              le32 i.modified_time
                (le32s i.direct_blocks (le32 i.indirect_block (le32 i.double_indirect []))))))))

unfoldable pub inode_of : List ℕ → Inode
inode_of bs = record {
  inode_num = word bs;
  file_type = get_or bs 4 0;
  permissions = get_or bs 5 0;
  reserved = half (drop 6 bs);
  size = word (drop 8 bs);
  blocks_used = word (drop 12 bs);
  created_time = word (drop 16 bs);
  modified_time = word (drop 20 bs);
  direct_blocks = words 12 (drop 24 bs);
  indirect_block = word (drop 72 bs);
  double_indirect = word (drop 76 bs);
}

-- sizeof(directory_entry_t) is 40.
unfoldable pub entry_bytes : DirectoryEntry → List ℕ
entry_bytes e = le32 e.inode_num (le16 e.name_length (e.file_type ∷ e.reserved ∷ e.name))

unfoldable pub entry_of : List ℕ → DirectoryEntry
entry_of bs = record {
  inode_num = word bs;
  name_length = half (drop 4 bs);
  file_type = get_or bs 6 0;
  reserved = get_or bs 7 0;
  name = drop 8 bs;
}

-- The `n` bytes at offset `o`
unfoldable pub slice : List ℕ → ℕ → ℕ → List ℕ
slice bs o zero = []
slice bs o (suc n) = get_or bs o 0 ∷ slice bs (o + 1) n

-- A copy of the bytes `xs` to offset `o`
unfoldable pub store : ℕ → List ℕ → List ℕ → List ℕ
store o [] bs = bs
store o (x ∷ xs) bs = store (o + 1) xs (set bs o x)
