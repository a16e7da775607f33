-- ===== src/Mm/Pool/Laws.antt =====
-- kernel/mm/memory.c: the invariant of a memory pool, and what pool_alloc does to it.
use trade_kernel.Base.{
  ℕ, ◌+◌, ◌*◌, ◌/◌, ◌^◌, ◌≤◌, ◌<◌, ◌≡◌, ◌≢◌, refl, Bool, true, false, some, length, arith, add32,
  sub32, mul32, find_from, find_from_sound, find_from_first, count_below, count_below-le,
  bitmap_test, bitmap_clear, count-bitmap_clear, length-bitmap_clear, bitmap_test-clear_self,
  bitmap_test-clear_ne, ne→==, sym, inl, inr, Option-cases, find_from-none, count_below-none, ◌∙◌,
}
use trade_kernel.Mm.Pool.{MemoryPool, pool_alloc}

abbrev pub is_free : MemoryPool → ℕ → Bool
is_free p = bitmap_test 32 p.free_bitmap

-- The counter is the number of free blocks; the bitmap has a bit for every block; the blocks lie
-- below 2 ^ 32, and none at address 0.
pub record IsValid (p : MemoryPool) : Type 0 where
  pub counted : p.free_blocks ≡ count_below (is_free p) p.block_count
  pub room : p.block_count ≤ length p.free_bitmap * 32
  pub sized : 0 < p.block_size
  pub start : 0 < p.pool_start
  pub fits : p.pool_start + p.block_count * p.block_size < 2 ^ 32

-- The address of block `i`.
abbrev pub block_addr : MemoryPool → ℕ → ℕ
block_addr p i = p.pool_start + i * p.block_size

-- What an allocation of block `i` does.
pub record Allocated (p : MemoryPool) (i : ℕ) : Type 0 where
  pub below : i < p.block_count
  pub was_free : is_free p i ≡ true
  pub first : (j : ℕ) → j < i → is_free p j ≡ false
  pub pointer : (pool_alloc p).0 ≡ block_addr p i
  pub taken : is_free (pool_alloc p).1 i ≡ false
  pub others : (j : ℕ) → j ≢ i → is_free (pool_alloc p).1 j ≡ is_free p j
  pub one_less : (pool_alloc p).1.free_blocks + 1 ≡ p.free_blocks
  pub valid : IsValid (pool_alloc p).1
  pub same_place : block_addr (pool_alloc p).1 i ≡ block_addr p i
  pub same_count : (pool_alloc p).1.block_count ≡ p.block_count

product_below : (i n s : ℕ) → i < n → i * s + s ≤ n * s
product_below i n s h = grind arith

pub block_addr-lt :
    (p : MemoryPool) (i : ℕ) → IsValid p → i < p.block_count → block_addr p i < 2 ^ 32
block_addr-lt p i v h = omega (arith, product_below i p.block_count p.block_size h, v.fits)

-- The state after block `i` is taken.
abbrev with_taken : MemoryPool → ℕ → MemoryPool
with_taken p i = record p {
  free_bitmap = bitmap_clear 32 p.free_bitmap i;
  free_blocks = sub32 p.free_blocks 1;
}

pool_alloc-eq :
    (p : MemoryPool) (i : ℕ)
    → p.free_blocks ≢ 0
    → find_from (is_free p) p.block_count 0 ≡ some i
    → pool_alloc p ≡ (add32 p.pool_start (mul32 i p.block_size), with_taken p i)
unfolding pool_alloc
pool_alloc-eq p i n e = rw (ne→== p.free_blocks 0 n, e, pool_alloc)

pub count_small : (p : MemoryPool) → IsValid p → p.block_count + 1 < 2 ^ 32
count_small p v = grind (arith, v.fits, v.sized)

with_taken-IsValid :
    (p : MemoryPool) (i : ℕ)
    → IsValid p
    → i < p.block_count
    → is_free p i ≡ true
    → IsValid (with_taken p i) × (sub32 p.free_blocks 1 + 1 ≡ p.free_blocks)
with_taken-IsValid p i v l t =
    let c : count_below (is_free p) p.block_count
        ≡ count_below (is_free (with_taken p i)) p.block_count + 1 =
      count-bitmap_clear 32 p.free_bitmap p.block_count i l (omega (arith, v.room)) t in
    let less : sub32 p.free_blocks 1 ≡ count_below (is_free (with_taken p i)) p.block_count =
      omega (arith, c, v.counted, count_small p v, count_below-le (is_free p) p.block_count) in
    (
      record {
        counted = less;
        room = rw (length-bitmap_clear 32 p.free_bitmap i) v.room;
        sized = v.sized;
        start = v.start;
        fits = v.fits;
      },
      omega (arith, less, c, v.counted),
    )

Allocated-found :
    (p : MemoryPool) (i : ℕ)
    → IsValid p
    → p.free_blocks ≢ 0
    → find_from (is_free p) p.block_count 0 ≡ some i
    → Allocated p i
Allocated-found p i v n e =
    let (t, z, l) = find_from_sound (is_free p) p.block_count 0 e in
    let l' : i < p.block_count = omega arith in
    let room : i / 32 < length p.free_bitmap = omega (arith, v.room) in
    let (valid, less) = with_taken-IsValid p i v l' t in
    let eq = pool_alloc-eq p i n e in
    record {
      below = l';
      was_free = t;
      first = λ j k. find_from_first (is_free p) p.block_count 0 j e (omega arith) k;
      pointer = rw eq (omega (arith, block_addr-lt p i v l'));
      taken = rw eq (bitmap_test-clear_self 32 p.free_bitmap i room);
      others = λ j k. rw eq (bitmap_test-clear_ne 32 p.free_bitmap i j room (λ q. k (sym q)));
      one_less = rw eq less;
      valid = rw eq valid;
      same_place = rw eq refl;
      same_count = rw eq refl;
    }

-- A valid pool with a free block hands out the first one: the pointer is its address, its bit is
-- cleared, no other bit changes, the counter goes down by one, and the pool stays valid.
pub pool_alloc-Allocated :
    (p : MemoryPool) → IsValid p → p.free_blocks ≢ 0 → (i : ℕ) × Allocated p i
pool_alloc-Allocated p v n = elim (Option-cases (find_from (is_free p) p.block_count 0)) [
  | inl e ↦ absurd (
      n (
        v.counted
        ∙ count_below-none (is_free p) p.block_count
            (λ j l. find_from-none (is_free p) p.block_count 0 j e (omega arith) (omega arith))))
  | inr (i, e) ↦ (i, Allocated-found p i v n e)
]
