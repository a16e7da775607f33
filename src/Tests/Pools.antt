-- ===== src/Tests/Pools.antt =====
-- kernel/mm: the block pool, the frames and the page tables.
use trade_kernel.Base.{
  ℕ, ◌+◌, ◌*◌, ◌/◌, ◌%◌, ◌≤◌, ◌<◌, ◌≡◌, ◌⊎◌, refl, true, false, [], ◌∷◌, arith, bitmap_test,
  test_bit, count_below,
}
use trade_kernel.Mm.Pool.{MemoryPool, pool_alloc, pool_free}
use trade_kernel.Mm.Pool.Laws.{IsValid, is_free}
use trade_kernel.Mm.Pool.Release.{pool_free-pool_alloc}
use trade_kernel.Mm.Paging.{
  Paging, success, map_page, get_physical_address, no_entry, allocate_page_frame,
}
use trade_kernel.Mm.Paging.Tables.{IsSeparated, IsFresh}
use trade_kernel.Mm.Paging.Frames.{HasFrames, AreFrames, IsListed, allocate_page_frame-HasFrames}
use trade_kernel.Mm.Paging.Mapping.{get_physical_address-map_page, map_page-elsewhere}
use trade_kernel.Mm.Paging.Separation.{map_page-IsSeparated}

-- Three blocks, the second of them in use
abbrev pool : MemoryPool
pool = record {
  addr = 500;
  pool_start = 2000;
  block_size = 16;
  block_count = 3;
  bitmap_addr = 600;
  free_bitmap = 5 ∷ [];
  free_blocks = 2;
}

pool-IsValid : IsValid pool
unfolding bitmap_test test_bit count_below
pool-IsValid = record {
  counted = refl;
  room = omega arith;
  sized = omega arith;
  start = omega arith;
  fits = omega arith;
}

pool_free-pool_alloc_example :
    let (ptr, q) = pool_alloc pool in
    let r = pool_free q ptr in
    IsValid r × ((j : ℕ) → is_free r j ≡ is_free pool j) × (r.free_blocks ≡ pool.free_blocks)
pool_free-pool_alloc_example = pool_free-pool_alloc pool pool-IsValid (λ e. omega arith)

-- The directory at 4096 is empty; two frames were freed.
abbrev paging : Paging
paging = record {
  directories = λ d i. record { present = false; writable = false; user = false; page_table = 0 };
  tables = λ a. no_entry;
  free_page_frames = record { physical_addr = 2097152; ref_count = 0 } ∷ [];
  next_page_frame = 2105344;
  max_memory = 16777216;
  mem_stats = record {
    total_pages = 4096;
    free_pages = 3583;
    used_pages = 0;
    kernel_pages = 0;
    user_pages = 0;
    page_faults = 0;
    page_fault_resolved = 0;
  };
  kernel_page_directory = 4096;
  current_page_directory = 4096;
}

paging-HasFrames : HasFrames paging
unfolding HasFrames AreFrames IsListed
paging-HasFrames =
    (refl, omega arith, omega arith, omega arith, (refl, omega arith, omega arith, (λ z. z), tt))

allocate_page_frame-HasFrames_example :
    let (a, t) = allocate_page_frame paging in
    HasFrames t
    × (1 ≤ a
        → (a % 4096 ≡ 0)
          × (a < t.next_page_frame)
          × (IsListed a paging.free_page_frames ⊎ (a ≡ paging.next_page_frame))
          × (¬ IsListed a t.free_page_frames))
allocate_page_frame-HasFrames_example = allocate_page_frame-HasFrames paging paging-HasFrames

maps : (map_page 4096 5000 2101248 7 8192 paging).0 ≡ success
unfolding map_page
maps = refl

shown_present : test_bit 7 0 ≡ true
unfolding test_bit
shown_present = refl

get_physical_address-map_page_example :
    get_physical_address 4096 5000 (map_page 4096 5000 2101248 7 8192 paging).1
    ≡ 2101248 / 4096 * 4096 + 5000 % 4096
get_physical_address-map_page_example =
    get_physical_address-map_page 4096 5000 2101248 7 8192 paging refl (omega arith) (omega arith)
      shown_present maps

paging-IsSeparated : IsSeparated 4096 paging
unfolding IsSeparated
paging-IsSeparated i j a b c = absurd (cc)

paging-IsFresh : IsFresh 4096 8192 paging
unfolding IsFresh
paging-IsFresh = (refl, omega arith, (λ i a b. cc))

map_page-elsewhere_example :
    get_physical_address 4096 9000 (map_page 4096 5000 2101248 7 8192 paging).1
    ≡ get_physical_address 4096 9000 paging
map_page-elsewhere_example =
    map_page-elsewhere 4096 5000 9000 2101248 7 8192 paging paging-IsSeparated paging-IsFresh
      (omega arith) (omega arith) (λ e. omega arith) maps

map_page-IsSeparated_example : IsSeparated 4096 (map_page 4096 5000 2101248 7 8192 paging).1
map_page-IsSeparated_example =
    map_page-IsSeparated 4096 5000 2101248 7 8192 paging paging-IsSeparated paging-IsFresh maps
