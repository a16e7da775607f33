-- ===== src/Mm/Heap.antt =====
-- kernel/mm/memory.c: the best-fit heap with its headers, statistics and allocation table.
-- The linked list of headers is a list of blocks in the order of their `next` pointers; each block
-- keeps the address of its header. `sizeof(mem_block_t)` is 32 on the 32-bit target.
pub mod Blocks
pub mod Alloc
pub mod Free
pub mod Search
pub mod Tiling
pub mod Corruption
pub mod Fit
pub mod Accounting
