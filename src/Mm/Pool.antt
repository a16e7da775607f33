-- ===== src/Mm/Pool.antt =====
-- kernel/mm/memory.c: create_memory_pool, pool_alloc, pool_free, destroy_memory_pool. In the bitmap
-- a set bit marks a free block. A NULL pool, on which the functions return at once, is not modelled;
-- nor are the contents of the blocks, which pool_free clears.
pub mod Laws
pub mod Release
use trade_kernel.Base.{
  ℕ, ◌+◌, ◌-◌, ◌*◌, ◌/◌, ◌%◌, ◌^◌, List, Option, none, some, ◌==◌, leb, if◌then◌else◌, replicate,
  add32, sub32, mul32, find_from, bitmap_test, bitmap_set, bitmap_clear,
}
use trade_kernel.Mm.Heap.Blocks.{Heap, align8}
use trade_kernel.Mm.Heap.Alloc.{kmalloc_debug}
use trade_kernel.Mm.Heap.Free.{kfree}

-- memory_pool_t; `addr` and `bitmap_addr` are the addresses of the structure and of its bitmap.
pub record MemoryPool : Type 0 where
  pub addr : ℕ
  pub pool_start : ℕ
  pub block_size : ℕ
  pub block_count : ℕ
  pub bitmap_addr : ℕ
  pub free_bitmap : List ℕ
  pub free_blocks : ℕ

unfoldable pub pool_alloc : MemoryPool → ℕ × MemoryPool
pool_alloc p =
    if p.free_blocks == 0
    then (0, p)
    else elim (find_from (bitmap_test 32 p.free_bitmap) p.block_count 0) [
      | none ↦ (0, p)
      | some i ↦ (
        add32 p.pool_start (mul32 i p.block_size),
        record p {
          free_bitmap = bitmap_clear 32 p.free_bitmap i;
          free_blocks = sub32 p.free_blocks 1;
        },
      )
    ]

unfoldable pub pool_free : MemoryPool → ℕ → MemoryPool
pool_free p ptr =
    let offset = sub32 ptr p.pool_start in
    if ptr == 0
    then p
    else (if offset % p.block_size == 0
        then (if leb p.block_count (offset / p.block_size) then p else record p {
          free_bitmap = bitmap_set 32 p.free_bitmap (offset / p.block_size);
          free_blocks = add32 p.free_blocks 1;
        })
        else p)

-- sizeof(memory_pool_t)
abbrev pub pool_struct_size : ℕ
pool_struct_size = 20

-- The arguments are the addresses of the literals "split" and "unknown" of memory.c.
module _ (split_file unknown_file : ℕ) where
  unfoldable pub kmalloc : ℕ → Heap → ℕ × Heap
  kmalloc size h = kmalloc_debug split_file size unknown_file 0 h

  -- The pool with its three allocations made.
  abbrev pub fresh_pool : ℕ → ℕ → ℕ → ℕ → ℕ → MemoryPool
  fresh_pool addr start bitmap size count = record {
    addr = addr;
    pool_start = start;
    block_size = size;
    block_count = count;
    bitmap_addr = bitmap;
    free_bitmap = replicate (add32 count 31 / 32) (2 ^ 32 - 1);
    free_blocks = count;
  }

  unfoldable pub create_memory_pool : ℕ → ℕ → Heap → Option MemoryPool × Heap
  create_memory_pool block_size block_count h =
      let size = align8 block_size in
      let (pool, h1) = kmalloc pool_struct_size h in
      let (start, h2) = kmalloc (mul32 size block_count) h1 in
      let (bitmap, h3) = kmalloc (mul32 (add32 block_count 31 / 32) 4) h2 in
      if pool == 0
      then (none, h1)
      else (if start == 0
          then (none, kfree pool h2)
          else (if bitmap == 0
              then (none, kfree pool (kfree start h3))
              else (some (fresh_pool pool start bitmap size block_count), h3)))

unfoldable pub destroy_memory_pool : MemoryPool → Heap → Heap
destroy_memory_pool p h = kfree p.addr (kfree p.pool_start (kfree p.bitmap_addr h))
