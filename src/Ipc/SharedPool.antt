-- ===== src/Ipc/SharedPool.antt =====
-- kernel/proc/ipc.c: create_shared_pool, shared_pool_alloc, shared_pool_free, destroy_shared_pool. A set
-- bit marks an element in use. A NULL pool, on which the functions return at once, is not modelled.
pub mod Laws
use trade_kernel.Base.{
  ℕ, ◌+◌, ◌/◌, List, Option, none, some, not, leb, ◌==◌, if◌then◌else◌, replicate, add32, sub32,
  mul32, find_from, bitmap_test, bitmap_set, bitmap_clear,
}
use trade_kernel.Mm.Heap.Blocks.{Heap}
use trade_kernel.Mm.Heap.Free.{kfree}
use trade_kernel.Mm.Pool.{kmalloc}

-- shared_pool_t; `addr` and `bitmap_addr` are the addresses of the structure and of its bitmap.
pub record SharedPool : Type 0 where
  pub addr : ℕ
  pub base_addr : ℕ
  pub size : ℕ
  pub element_size : ℕ
  pub max_elements : ℕ
  pub used_elements : ℕ
  pub bitmap_addr : ℕ
  pub allocation_bitmap : List ℕ

-- sizeof(shared_pool_t)
abbrev pub shared_pool_struct_size : ℕ
shared_pool_struct_size = 24

-- The arguments are the addresses of the literals of memory.c.
unfoldable pub create_shared_pool : ℕ → ℕ → ℕ → ℕ → Heap → Option SharedPool × Heap
create_shared_pool split_file unknown_file element_size max_elements h =
    let (pool, h1) = kmalloc split_file unknown_file shared_pool_struct_size h in
    let (base, h2) = kmalloc split_file unknown_file (mul32 element_size max_elements) h1 in
    let (bitmap, h3) = kmalloc split_file unknown_file (add32 max_elements 7 / 8) h2 in
    let p : SharedPool = record {
      addr = pool;
      base_addr = base;
      size = mul32 element_size max_elements;
      element_size = element_size;
      max_elements = max_elements;
      used_elements = 0;
      bitmap_addr = bitmap;
      allocation_bitmap = replicate (add32 max_elements 7 / 8) 0;
    } in
    if pool == 0
    then (none, h1)
    else (if base == 0
        then (none, kfree pool h2)
        else (if bitmap == 0 then (none, kfree pool (kfree base h3)) else (some p, h3)))

unfoldable pub shared_pool_alloc : SharedPool → ℕ × SharedPool
shared_pool_alloc p =
    if leb p.max_elements p.used_elements
    then (0, p)
    else elim (find_from (λ i. not (bitmap_test 8 p.allocation_bitmap i)) p.max_elements 0) [
      | none ↦ (0, p)
      | some i ↦ (
        add32 p.base_addr (mul32 i p.element_size),
        record p {
          allocation_bitmap = bitmap_set 8 p.allocation_bitmap i;
          used_elements = add32 p.used_elements 1;
        },
      )
    ]

unfoldable pub shared_pool_free : SharedPool → ℕ → SharedPool
shared_pool_free p ptr =
    let index = sub32 ptr p.base_addr / p.element_size in
    if ptr == 0
    then p
    else (if leb p.max_elements index
        then p
        else (if bitmap_test 8 p.allocation_bitmap index
            then record p {
              allocation_bitmap = bitmap_clear 8 p.allocation_bitmap index;
              used_elements = sub32 p.used_elements 1;
            }
            else p))

unfoldable pub destroy_shared_pool : SharedPool → Heap → Heap
destroy_shared_pool p h =
    let base = if p.base_addr == 0 then h else kfree p.base_addr h in
    let bitmap = if p.bitmap_addr == 0 then base else kfree p.bitmap_addr base in
    kfree p.addr bitmap
