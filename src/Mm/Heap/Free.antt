-- ===== src/Mm/Heap/Free.antt =====
-- kernel/mm/memory.c: _kfree_debug, _krealloc_debug, the statistics and the integrity check.
use trade_kernel.Base.{
  ℕ, ◌+◌, ◌/◌, true, ◌&&◌, List, [], ◌∷◌, Option, none, some, ltb, leb, ◌==◌, if◌then◌else◌, add32,
  sub32, mul32,
}
use trade_kernel.Mm.Heap.Blocks.{
  MemBlock, AllocationInfo, HeapStats, Heap, memory_guard_magic, memory_free_magic, header_size,
}
use trade_kernel.Mm.Heap.Alloc.{kmalloc_debug}

abbrev pub freed : MemBlock → MemBlock
freed b = record b { free = true; magic = memory_free_magic }

-- `a->size += b->size + sizeof(mem_block_t)`, with `b` unlinked
abbrev pub absorb : MemBlock → MemBlock → MemBlock
absorb a b = record a { size = add32 a.size (add32 b.size header_size) }

-- The list after coalescing, and the number of coalesce operations.
abbrev pub Merged : Type 0
Merged = List MemBlock × ℕ

unfoldable pub coalesce_next : MemBlock → List MemBlock → Merged
coalesce_next b [] = (b ∷ [], 0)
coalesce_next b (n ∷ ns) = if n.free then (absorb b n ∷ ns, 1) else (b ∷ n ∷ ns, 0)

unfoldable pub coalesce_prev : MemBlock → Merged → Merged
coalesce_prev p ([], k) = (p ∷ [], k)
coalesce_prev p (b ∷ bs, k) = if p.free then (absorb p b ∷ bs, k + 1) else (p ∷ b ∷ bs, k)

abbrev pub push_front : MemBlock → Merged → Merged
push_front b (bs, k) = (b ∷ bs, k)

-- Free the block at address `a` in `p ∷ bs`, where `p` is the block before `bs`.
unfoldable pub release_after : ℕ → MemBlock → List MemBlock → Merged
unfolding coalesce_next coalesce_prev
release_after a p [] = (p ∷ [], 0)
release_after a p (b ∷ bs) =
    let rest = release_after a b bs in
    if b.addr == a then coalesce_prev p (coalesce_next (freed b) bs) else push_front p rest

unfoldable pub release : ℕ → List MemBlock → Merged
unfolding release_after
release a [] = ([], 0)
release a (b ∷ bs) = if b.addr == a then coalesce_next (freed b) bs else release_after a b bs

-- The header at an address.
unfoldable pub block_at : ℕ → List MemBlock → Option MemBlock
block_at a [] = none
block_at a (b ∷ bs) = let rest = block_at a bs in if b.addr == a then some b else rest

unfoldable pub untrack : ℕ → List AllocationInfo → List AllocationInfo
untrack p [] = []
untrack p (s ∷ ss) =
    let rest = untrack p ss in if s.ptr == p then record s { ptr = 0 } ∷ ss else s ∷ rest

abbrev pub count_freed : ℕ → ℕ → HeapStats → HeapStats
count_freed size merges s = record s {
  used_memory = sub32 s.used_memory size;
  free_memory = add32 s.free_memory size;
  free_operations = add32 s.free_operations 1;
  active_allocations = sub32 s.active_allocations 1;
  coalesce_operations = add32 s.coalesce_operations merges;
}

-- _kfree_debug, for NULL and for pointers behind a header of the list. For any other pointer the code reads a
-- header in memory that the model does not have; the first branch stands for no behaviour of the code. The
-- memset of the contents is not part of the model.
unfoldable pub kfree : ℕ → Heap → Heap
kfree ptr h = if ptr == 0 then h else elim (block_at (sub32 ptr header_size) h.blocks) [
  | none ↦ h
  | some b ↦
      if b.magic == memory_guard_magic
      then (if b.free then h else record h {
        blocks = (release b.addr h.blocks).0;
        stats = count_freed b.size (release b.addr h.blocks).1 h.stats;
        allocations = untrack ptr h.allocations;
      })
      else h
]

-- _krealloc_debug; the memcpy of the contents is not part of the model.
unfoldable pub krealloc_debug : ℕ → ℕ → ℕ → ℕ → ℕ → Heap → ℕ × Heap
unfolding kfree
krealloc_debug split_file ptr size file line h =
    let moved = kmalloc_debug split_file size file line h in
    if ptr == 0
    then moved
    else (if size == 0 then (0, kfree ptr h) else elim (block_at (sub32 ptr header_size) h.blocks) [
      | none ↦ (0, h)
      | some b ↦
          if b.magic == memory_guard_magic
          then (if leb size b.size
              then (ptr, h)
              else (if moved.0 == 0 then moved else (moved.0, kfree ptr moved.1)))
          else (0, h)
    ])

-- The largest free block, as get_heap_stats finds it.
unfoldable pub largest_free : ℕ → List MemBlock → ℕ
largest_free m [] = m
largest_free m (b ∷ bs) = largest_free (if b.free && ltb m b.size then b.size else m) bs

unfoldable pub get_heap_stats : Heap → Heap
unfolding largest_free
get_heap_stats h =
    let largest = largest_free 0 h.blocks in
    record h {
      stats = record h.stats {
        largest_free_block = largest;
        fragmentation_ratio =
            if ltb 0 h.stats.free_memory
            then mul32 largest 100 / h.stats.free_memory
            else h.stats.fragmentation_ratio;
      };
    }

-- check_heap_integrity: the number of errors.
unfoldable pub block_error : MemBlock → ℕ
block_error b =
    if b.magic == memory_guard_magic
    then 0
    else (if b.free then (if b.magic == memory_free_magic then 0 else 1) else 1)

unfoldable pub check_heap_integrity : List MemBlock → ℕ
unfolding block_error
check_heap_integrity [] = 0
check_heap_integrity (b ∷ bs) = block_error b + check_heap_integrity bs
