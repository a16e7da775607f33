-- ===== src/Ipc/SharedPool/Laws.antt =====
-- kernel/proc/ipc.c: the counter of a shared pool is the number of bits set in its bitmap.
use trade_kernel.Base.{
  ℕ, ◌+◌, ◌*◌, ◌/◌, ◌^◌, ◌≤◌, ◌<◌, ◌≡◌, inl, inr, Bool, true, false, not, none, length, leb, arith,
  Bool-cases, Option-cases, add32, sub32, find_from, find_from_sound, find_from-none, count_below,
  count_below-le, count_below-all, bitmap_test, bitmap_set, bitmap_clear, count-bitmap_set,
  count-bitmap_clear, length-bitmap_set, length-bitmap_clear, bitmap_test-clear_self,
}
use trade_kernel.Ipc.SharedPool.{SharedPool, shared_pool_alloc, shared_pool_free}

abbrev pub in_use : SharedPool → ℕ → Bool
in_use p = bitmap_test 8 p.allocation_bitmap

pub record IsValid (p : SharedPool) : Type 0 where
  pub counted : p.used_elements ≡ count_below (in_use p) p.max_elements
  pub room : p.max_elements ≤ length p.allocation_bitmap * 8
  pub small : p.max_elements < 2 ^ 32

set-IsValid :
    (p : SharedPool) (i : ℕ)
    → IsValid p
    → i < p.max_elements
    → in_use p i ≡ false
    → IsValid (record p {
      allocation_bitmap = bitmap_set 8 p.allocation_bitmap i;
      used_elements = add32 p.used_elements 1;
    })
      × (add32 p.used_elements 1 ≡ p.used_elements + 1)
set-IsValid p i v l f =
    let c = count-bitmap_set 8 p.allocation_bitmap p.max_elements i l (omega (arith, v.room)) f in
    let le = count_below-le (bitmap_test 8 (bitmap_set 8 p.allocation_bitmap i)) p.max_elements in
    let more : add32 p.used_elements 1 ≡ p.used_elements + 1 =
      omega (arith, v.counted, v.small, c, le) in
    (
      record {
        counted = omega (arith, more, c, v.counted);
        room = rw (length-bitmap_set 8 p.allocation_bitmap i) v.room;
        small = v.small;
      },
      more,
    )

clear-IsValid :
    (p : SharedPool) (i : ℕ)
    → IsValid p
    → i < p.max_elements
    → in_use p i ≡ true
    → IsValid (record p {
      allocation_bitmap = bitmap_clear 8 p.allocation_bitmap i;
      used_elements = sub32 p.used_elements 1;
    })
clear-IsValid p i v l t =
    let c = count-bitmap_clear 8 p.allocation_bitmap p.max_elements i l (omega (arith, v.room)) t in
    let le = count_below-le (in_use p) p.max_elements in
    record {
      counted = omega (arith, c, le, v.counted, v.small);
      room = rw (length-bitmap_clear 8 p.allocation_bitmap i) v.room;
      small = v.small;
    }

-- shared_pool_alloc keeps a valid pool valid, and finds an element whenever the counter is below the
-- number of elements: the counter then goes up by one.
pub shared_pool_alloc-IsValid :
    (p : SharedPool)
    → IsValid p
    → let q = (shared_pool_alloc p).1 in
      IsValid q × (p.used_elements < p.max_elements → q.used_elements ≡ p.used_elements + 1)
unfolding shared_pool_alloc
shared_pool_alloc-IsValid p v = elim (Bool-cases (leb p.max_elements p.used_elements)) [
  | inl t ↦ rw (t, shared_pool_alloc) (v, λ l. absurd (ground arith))
  | inr f ↦ elim (Option-cases (find_from (λ i. not (in_use p i)) p.max_elements 0)) [
    | inl e ↦ absurd (full e f)
    | inr (i, e) ↦
        let (t, z, l) = find_from_sound (λ i. not (in_use p i)) p.max_elements 0 e in
        let (valid, more) = set-IsValid p i v (omega arith) (ground arith) in
        rw (f, shared_pool_alloc, e) (valid, λ _. more)
  ]
]
  where
    full :
        find_from (λ i. not (in_use p i)) p.max_elements 0 ≡ none
        → leb p.max_elements p.used_elements ≡ false
        → ⊥
    full e f =
        let all : count_below (in_use p) p.max_elements ≡ p.max_elements =
          count_below-all (in_use p) p.max_elements (λ j l. used j (
            find_from-none (λ i. not (in_use p i)) p.max_elements 0 j e (omega arith)
              (omega arith))) in
        ground (arith, all, v.counted)
      where
        used : (j : ℕ) → not (in_use p j) ≡ false → in_use p j ≡ true
        used j h = ground arith

-- shared_pool_free keeps a valid pool valid, whatever pointer it is given.
pub shared_pool_free-IsValid :
    (p : SharedPool) (ptr : ℕ) → IsValid p → IsValid (shared_pool_free p ptr)
unfolding shared_pool_free
shared_pool_free-IsValid p ptr v =
    ground (arith, clear-IsValid p (sub32 ptr p.base_addr / p.element_size) v)

-- A second shared_pool_free of the same pointer does nothing.
pub shared_pool_free-twice :
    (p : SharedPool) (ptr : ℕ)
    → IsValid p
    → shared_pool_free (shared_pool_free p ptr) ptr ≡ shared_pool_free p ptr
unfolding shared_pool_free
shared_pool_free-twice p ptr v = ground (arith, cleared)
  where
    index : ℕ
    index = sub32 ptr p.base_addr / p.element_size

    cleared :
        index < p.max_elements
        → bitmap_test 8 (bitmap_clear 8 p.allocation_bitmap index) index ≡ false
    cleared l = bitmap_test-clear_self 8 p.allocation_bitmap index (omega (arith, v.room))
