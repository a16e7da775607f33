-- ===== src/Tests/Mm.antt =====
-- kernel/mm/memory.c: a heap of two blocks.
use trade_kernel.Base.{◌≡◌, refl, inl, inr, true, false, [], ◌∷◌, some, arith, sub32}
use trade_kernel.Mm.Heap.Blocks.{MemBlock, Heap, memory_guard_magic, empty_slot, header_size}
use trade_kernel.Mm.Heap.Alloc.{kmalloc_debug}
use trade_kernel.Mm.Heap.Free.{kfree, block_at}
use trade_kernel.Mm.Heap.Tiling.{IsTiled, IsPointer, kmalloc-IsTiled, kfree-IsTiled}
use trade_kernel.Mm.Heap.Corruption.{kmalloc-kfree}

abbrev used_block : MemBlock
used_block = record {
  addr = 1048576;
  magic = memory_guard_magic;
  size = 64;
  free = false;
  file = 7;
  line = 1;
  alloc_id = 1;
}

abbrev free_block : MemBlock
free_block = record {
  addr = 1048672;
  magic = memory_guard_magic;
  size = 4194176;
  free = true;
  file = 7;
  line = 1;
  alloc_id = 0;
}

abbrev heap : Heap
heap = record {
  blocks = used_block ∷ free_block ∷ [];
  stats = record {
    total_memory = 4194304;
    used_memory = 96;
    free_memory = 4194208;
    total_allocations = 1;
    active_allocations = 1;
    failed_allocations = 0;
    free_operations = 0;
    coalesce_operations = 0;
    largest_free_block = 4194176;
    fragmentation_ratio = 0;
  };
  allocations = empty_slot ∷ empty_slot ∷ [];
  next_alloc_id = 2;
}

heap-IsTiled : IsTiled heap
heap-IsTiled = (refl, refl, (refl, refl, refl))

kmalloc-IsTiled_example : IsTiled (kmalloc_debug 8 100 7 3 heap).1
kmalloc-IsTiled_example = kmalloc-IsTiled 8 100 7 3 heap heap-IsTiled

heap-IsPointer : IsPointer 1048608 heap
unfolding block_at
heap-IsPointer = inr (_, refl)

kfree-IsTiled_example : IsTiled (kfree 1048608 heap)
kfree-IsTiled_example = kfree-IsTiled 1048608 heap heap-IsTiled heap-IsPointer

found : block_at (sub32 1048608 header_size) heap.blocks ≡ some used_block
unfolding block_at
found = refl

kmalloc-kfree_example : kmalloc_debug 8 16 7 3 (kfree 1048608 heap) ≡ (0, kfree 1048608 heap)
kmalloc-kfree_example =
    kmalloc-kfree 8 16 7 3 1048608 heap used_block (λ e. omega arith) found refl refl (inl refl)
