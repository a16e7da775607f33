-- ===== src/Mm/Heap/Alloc.antt =====
-- kernel/mm/memory.c: _kmalloc_debug, kmalloc, _kcalloc_debug.
use trade_kernel.Base.{
  ℕ, ◌/◌, true, false, ◌&&◌, List, [], ◌∷◌, Option, none, some, ltb, leb, ◌==◌, if◌then◌else◌,
  add32, sub32, mul32,
}
use trade_kernel.Mm.Heap.Blocks.{
  MemBlock, AllocationInfo, HeapStats, Heap, memory_guard_magic, header_size, align8,
}

-- One round of the search for the best fit.
unfoldable pub choose : ℕ → MemBlock → Option MemBlock → Option MemBlock
choose size b none = if b.free && leb size b.size then some b else none
choose size b (some c) = if b.free && leb size b.size && ltb b.size c.size then some b else some c

-- How the walk over the list ends: at a bad magic number, or with the best fit found.
pub data Search : Type 0 where
  corrupted : Search
  fit : Option MemBlock → Search

unfoldable pub best_fit : ℕ → List MemBlock → Option MemBlock → Search
unfolding choose
best_fit size [] best = fit best
best_fit size (b ∷ bs) best =
    let rest = best_fit size bs (choose size b best) in
    if b.magic == memory_guard_magic then rest else corrupted

-- Where and by whom an allocation is made.
pub record Request : Type 0 where
  pub size : ℕ
  pub file : ℕ
  pub line : ℕ
  pub split_file : ℕ
  pub alloc_id : ℕ

-- The header that a split writes; `split_file` is the address of the literal "split".
abbrev pub split_block : Request → MemBlock → MemBlock
split_block r b = record {
  addr = add32 (add32 b.addr header_size) r.size;
  magic = memory_guard_magic;
  size = sub32 (sub32 b.size r.size) header_size;
  free = true;
  file = r.split_file;
  line = 0;
  alloc_id = 0;
}

abbrev pub taken_block : Request → ℕ → MemBlock → MemBlock
taken_block r size b = record b {
  size = size;
  free = false;
  file = r.file;
  line = r.line;
  alloc_id = r.alloc_id;
}

-- Take the block at address `a`, split if it is much larger than needed.
unfoldable pub take_block : Request → ℕ → List MemBlock → List MemBlock
take_block r a [] = []
take_block r a (b ∷ bs) =
    let rest = take_block r a bs in
    if b.addr == a
    then (if ltb (add32 (add32 r.size header_size) 16) b.size
        then taken_block r r.size b ∷ split_block r b ∷ bs
        else taken_block r b.size b ∷ bs)
    else b ∷ rest

-- The size that the chosen block has after the split.
abbrev pub taken_size : Request → MemBlock → ℕ
taken_size r b = if ltb (add32 (add32 r.size header_size) 16) b.size then r.size else b.size

-- The first empty slot of the table is filled; a full table is left alone.
unfoldable pub track : AllocationInfo → List AllocationInfo → List AllocationInfo
track a [] = []
track a (s ∷ ss) = let rest = track a ss in if s.ptr == 0 then a ∷ ss else s ∷ rest

abbrev pub count_failed : HeapStats → HeapStats
count_failed s = record s { failed_allocations = add32 s.failed_allocations 1 }

abbrev pub count_taken : ℕ → HeapStats → HeapStats
count_taken size s = record s {
  used_memory = add32 s.used_memory size;
  free_memory = sub32 s.free_memory size;
  total_allocations = add32 s.total_allocations 1;
  active_allocations = add32 s.active_allocations 1;
}

-- What follows the search: `best` is the block that was chosen.
unfoldable pub allocate : Request → MemBlock → Heap → ℕ × Heap
unfolding take_block track
allocate r best h =
    let size = taken_size r best in
    let stats = count_taken size h.stats in
    let info : AllocationInfo = record {
      ptr = add32 best.addr header_size;
      size = size;
      file = r.file;
      line = r.line;
      alloc_id = r.alloc_id;
      timestamp = stats.total_allocations;
    } in
    (
      add32 best.addr header_size,
      record {
        blocks = take_block r best.addr h.blocks;
        stats = stats;
        allocations = track info h.allocations;
        next_alloc_id = add32 r.alloc_id 1;
      },
    )

-- _kmalloc_debug; NULL is 0.
unfoldable pub kmalloc_debug : ℕ → ℕ → ℕ → ℕ → Heap → ℕ × Heap
kmalloc_debug split_file size file line h =
    let r : Request = record {
      size = align8 size;
      file = file;
      line = line;
      split_file = split_file;
      alloc_id = h.next_alloc_id;
    } in
    if size == 0 then (0, h) else elim (best_fit (align8 size) h.blocks none) [
      | corrupted ↦ (0, h)
      | fit none ↦ (0, record h { stats = count_failed h.stats })
      | fit (some b) ↦ allocate r b h
    ]

-- _kcalloc_debug: `fault` is the division by zero of the overflow check. The memset of the
-- contents is not part of the model.
pub data Calloc : Type 0 where
  fault : Calloc
  returned : ℕ × Heap → Calloc

unfoldable pub kcalloc_debug : ℕ → ℕ → ℕ → ℕ → ℕ → Heap → Calloc
kcalloc_debug split_file count size file line h =
    if count == 0
    then fault
    else (if mul32 count size / count == size
        then returned (kmalloc_debug split_file (mul32 count size) file line h)
        else returned (0, h))
