-- ===== src/Mm/Pool/Release.antt =====
-- kernel/mm/memory.c: what pool_free does to a memory pool.
use trade_kernel.Base.{
  ℕ, ◌+◌, ◌*◌, ◌/◌, ◌%◌, ◌<◌, ◌≡◌, ◌≢◌, inl, inr, true, false, length, arith, Bool-cases, add32,
  sub32, count_below, count_below-le, count_below-ext, ==→eq, bitmap_set, count-bitmap_set,
  length-bitmap_set, bitmap_test-set_self, bitmap_test-set_ne, ◌==◌, sym, ◌∙◌,
}
use native.Mathlib.Nat.{mul-mod_left, mul-div_cancel}
use trade_kernel.Mm.Pool.{MemoryPool, pool_alloc, pool_free}
use trade_kernel.Mm.Pool.Laws.{
  is_free, IsValid, block_addr, block_addr-lt, count_small, pool_alloc-Allocated,
}

offset_lem :
    (p : MemoryPool) (i : ℕ)
    → IsValid p
    → i < p.block_count
    → (sub32 (block_addr p i) p.pool_start % p.block_size ≡ 0)
      × (sub32 (block_addr p i) p.pool_start / p.block_size ≡ i)
offset_lem p i v l =
    let e : sub32 (block_addr p i) p.pool_start ≡ i * p.block_size =
      omega (arith, block_addr-lt p i v l) in
    rw e (mul-mod_left i p.block_size, mul-div_cancel i v.sized)

-- The state after block `i` is given back.
abbrev with_free : MemoryPool → ℕ → MemoryPool
with_free p i = record p {
  free_bitmap = bitmap_set 32 p.free_bitmap i;
  free_blocks = add32 p.free_blocks 1;
}

pub pool_free-eq :
    (p : MemoryPool) (i : ℕ)
    → IsValid p
    → i < p.block_count
    → pool_free p (block_addr p i) ≡ with_free p i
unfolding pool_free
pool_free-eq p i v l = ground (arith, offset_lem p i v l, v.start)

with_free-IsValid :
    (p : MemoryPool) (i : ℕ)
    → IsValid p
    → i < p.block_count
    → is_free p i ≡ false
    → IsValid (with_free p i) × (add32 p.free_blocks 1 ≡ p.free_blocks + 1)
with_free-IsValid p i v l t =
    let c : count_below (is_free (with_free p i)) p.block_count
        ≡ count_below (is_free p) p.block_count + 1 =
      count-bitmap_set 32 p.free_bitmap p.block_count i l (omega (arith, v.room)) t in
    let more : add32 p.free_blocks 1 ≡ p.free_blocks + 1 =
      omega (arith, v.counted, count_small p v, count_below-le (is_free p) p.block_count) in
    (
      record {
        counted = omega (arith, more, c, v.counted);
        room = rw (length-bitmap_set 32 p.free_bitmap i) v.room;
        sized = v.sized;
        start = v.start;
        fits = v.fits;
      },
      more,
    )

-- Giving back a block that is in use sets its bit, changes no other bit, raises the counter by one
-- and keeps the pool valid.
pub pool_free-used :
    (p : MemoryPool) (i : ℕ)
    → IsValid p
    → i < p.block_count
    → is_free p i ≡ false
    → let q = pool_free p (block_addr p i) in
      IsValid q
      × (is_free q i ≡ true)
      × ((j : ℕ) → j ≢ i → is_free q j ≡ is_free p j)
      × (q.free_blocks ≡ p.free_blocks + 1)
pool_free-used p i v l t =
    let room : i / 32 < length p.free_bitmap = omega (arith, v.room) in
    let (valid, more) = with_free-IsValid p i v l t in
    rw (pool_free-eq p i v l) (
      valid,
      bitmap_test-set_self 32 p.free_bitmap i room,
      λ j k. bitmap_test-set_ne 32 p.free_bitmap i j room (λ q. k (sym q)),
      more,
    )

-- pool_free has no guard against a block that is free already: freeing such a block makes the
-- counter exceed the number of free blocks, so that the pool is no longer valid.
pub pool_free-twice :
    (p : MemoryPool) (i : ℕ)
    → IsValid p
    → i < p.block_count
    → is_free p i ≡ true
    → let q = pool_free p (block_addr p i) in
      (count_below (is_free q) q.block_count < q.free_blocks) × ¬ IsValid q
pool_free-twice p i v l t =
    rw (pool_free-eq p i v l) (more, λ w. absurd (omega (arith, more, w.counted)))
  where
    room : i / 32 < length p.free_bitmap
    room = omega (arith, v.room)

    same :
        count_below (is_free (with_free p i)) p.block_count ≡ count_below (is_free p) p.block_count
    same = count_below-ext (is_free (with_free p i)) (is_free p) p.block_count (λ j k. bits j)
      where
        bits : (j : ℕ) → is_free (with_free p i) j ≡ is_free p j
        bits j = elim (Bool-cases (i == j)) [
          | inl e ↦ rw (← ==→eq i j e) (bitmap_test-set_self 32 p.free_bitmap i room ∙ sym t)
          | inr e ↦ bitmap_test-set_ne 32 p.free_bitmap i j room (λ q. ground arith)
        ]

    more : count_below (is_free (with_free p i)) p.block_count < add32 p.free_blocks 1
    more = omega (arith, same, v.counted, count_small p v, count_below-le (is_free p) p.block_count)

-- Allocating a block and giving it back leaves a valid pool with the same free blocks.
pub pool_free-pool_alloc :
    (p : MemoryPool)
    → IsValid p
    → p.free_blocks ≢ 0
    → let (ptr, q) = pool_alloc p in
      let r = pool_free q ptr in
      IsValid r × ((j : ℕ) → is_free r j ≡ is_free p j) × (r.free_blocks ≡ p.free_blocks)
pool_free-pool_alloc p v n =
    let (i, a) = pool_alloc-Allocated p v n in
    let (valid, back, others, more) =
      pool_free-used (pool_alloc p).1 i a.valid (rw a.same_count a.below) a.taken in
    rw (a.pointer ∙ sym a.same_place) (
      valid,
      λ j. elim (Bool-cases (i == j)) [
        | inl e ↦ rw (← ==→eq i j e) (back ∙ sym a.was_free)
        | inr e ↦ let ne : j ≢ i = λ q. ground arith in others j ne ∙ a.others j ne
      ],
      omega (arith, more, a.one_less),
    )
