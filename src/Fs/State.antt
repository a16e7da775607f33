-- ===== src/Fs/State.antt =====
-- kernel/fs/fs.h and fs.c: the structures of the filesystem that are kept in memory, its error codes,
-- and fs_get_free_space.
use trade_kernel.Base.{ℕ, Bool, List, Option, if◌then◌else◌, mul32}

abbrev pub block_size : ℕ
block_size = 512

abbrev pub max_open_files : ℕ
max_open_files = 32

-- superblock_t, without the fields that only describe the layout on disk
pub record Superblock : Type 0 where
  pub magic : ℕ
  pub total_blocks : ℕ
  pub free_blocks : ℕ
  pub inode_blocks : ℕ
  pub data_blocks : ℕ
  pub block_size : ℕ
  pub inodes_per_block : ℕ
  pub total_inodes : ℕ
  pub free_inodes : ℕ
  pub root_inode : ℕ

-- inode_t
pub record Inode : Type 0 where
  pub inode_num : ℕ
  pub file_type : ℕ
  pub permissions : ℕ
  pub reserved : ℕ
  pub size : ℕ
  pub blocks_used : ℕ
  pub created_time : ℕ
  pub modified_time : ℕ
  pub direct_blocks : List ℕ
  pub indirect_block : ℕ
  pub double_indirect : ℕ

-- file_descriptor_t
pub record FileDescriptor : Type 0 where
  pub inode_num : ℕ
  pub position : ℕ
  pub flags : ℕ
  pub in_use : Bool
  pub inode_cache : Inode

-- The static variables of fs.c; a bitmap that is not allocated is NULL.
pub record Fs : Type 0 where
  pub mounted : Bool
  pub superblock : Superblock
  pub file_descriptors : List FileDescriptor
  pub block_bitmap : Option (List ℕ)
  pub inode_bitmap : Option (List ℕ)

-- FS_ERROR_NOT_FOUND is -1, and so on.
pub data FsError : Type 0 where
  not_found no_space invalid exists no_memory : FsError

-- An `int` result: a number from 0 on, or an error.
pub data FsResult : Type 0 where
  ok : ℕ → FsResult
  err : FsError → FsResult

unfoldable pub fs_get_free_space : Fs → ℕ
fs_get_free_space s = if s.mounted then mul32 s.superblock.free_blocks block_size else 0

-- directory_entry_t; `name` is the array of 32 bytes
pub record DirectoryEntry : Type 0 where
  pub inode_num : ℕ
  pub name_length : ℕ
  pub file_type : ℕ
  pub reserved : ℕ
  pub name : List ℕ
