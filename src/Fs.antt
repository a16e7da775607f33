-- ===== src/Fs.antt =====
-- kernel/fs: the disk driver, the layout of the blocks, the inodes and directories on disk, the
-- allocation bitmaps and the table of open files.
pub mod State
pub mod Layout
pub mod Disk
pub mod Bitmaps
pub mod Inodes
pub mod Directories
pub mod Paths
pub mod Files
pub mod Format
pub mod Descriptors
