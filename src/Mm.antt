-- ===== src/Mm.antt =====
-- kernel/mm: the kernel heap, the fixed-size block pool and the paging layer.
pub mod Heap
pub mod Pool
pub mod Paging
