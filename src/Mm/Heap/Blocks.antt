-- ===== src/Mm/Heap/Blocks.antt =====
-- kernel/mm/memory.h and memory.c: the structures of the heap, and memory_init.
use trade_kernel.Base.{ℕ, ◌-◌, ◌*◌, ◌/◌, Bool, true, List, [], ◌∷◌, replicate, add32}

abbrev pub kernel_heap_start : ℕ
kernel_heap_start = 0x10_0000

abbrev pub kernel_heap_size : ℕ
kernel_heap_size = 0x40_0000

abbrev pub memory_guard_magic : ℕ
memory_guard_magic = 0xdead_beef

abbrev pub memory_free_magic : ℕ
memory_free_magic = 0xfeed_face

abbrev pub max_allocations : ℕ
max_allocations = 1024

-- sizeof(mem_block_t)
abbrev pub header_size : ℕ
header_size = 32

-- `file` is the pointer to the name; `next` and `prev` are the order of the list.
pub record MemBlock : Type 0 where
  pub addr : ℕ
  pub magic : ℕ
  pub size : ℕ
  pub free : Bool
  pub file : ℕ
  pub line : ℕ
  pub alloc_id : ℕ

pub record AllocationInfo : Type 0 where
  pub ptr : ℕ
  pub size : ℕ
  pub file : ℕ
  pub line : ℕ
  pub alloc_id : ℕ
  pub timestamp : ℕ

pub record HeapStats : Type 0 where
  pub total_memory : ℕ
  pub used_memory : ℕ
  pub free_memory : ℕ
  pub total_allocations : ℕ
  pub active_allocations : ℕ
  pub failed_allocations : ℕ
  pub free_operations : ℕ
  pub coalesce_operations : ℕ
  pub largest_free_block : ℕ
  pub fragmentation_ratio : ℕ

-- The static variables of memory.c.
pub record Heap : Type 0 where
  pub blocks : List MemBlock
  pub stats : HeapStats
  pub allocations : List AllocationInfo
  pub next_alloc_id : ℕ

abbrev pub empty_slot : AllocationInfo
empty_slot = record { ptr = 0; size = 0; file = 0; line = 0; alloc_id = 0; timestamp = 0 }

abbrev pub system_block : ℕ → MemBlock
system_block file = record {
  addr = kernel_heap_start;
  magic = memory_guard_magic;
  size = kernel_heap_size - header_size;
  free = true;
  file = file;
  line = 0;
  alloc_id = 0;
}

-- memory_init; `file` is the address of the literal "system". next_alloc_id is not reset.
unfoldable pub memory_init : ℕ → Heap → Heap
memory_init file h = record h {
  blocks = system_block file ∷ [];
  stats = record {
    total_memory = kernel_heap_size;
    used_memory = header_size;
    free_memory = kernel_heap_size - header_size;
    total_allocations = 0;
    active_allocations = 0;
    failed_allocations = 0;
    free_operations = 0;
    coalesce_operations = 0;
    largest_free_block = kernel_heap_size - header_size;
    fragmentation_ratio = 0;
  };
  allocations = replicate max_allocations empty_slot;
}

-- `(size + 7) & ~7` on uint32_t: the sum wraps.
unfoldable pub align8 : ℕ → ℕ
align8 n = add32 n 7 / 8 * 8
