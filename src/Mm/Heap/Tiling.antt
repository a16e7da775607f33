-- ===== src/Mm/Heap/Tiling.antt =====
-- The blocks of the heap lie one behind the other, from the start of the heap to its end, with
-- sizes that are multiples of 8. kmalloc and kfree (kernel/mm/memory.c) keep this.
use trade_kernel.Base.{
  ◌⊎◌, ℕ, ◌+◌, ◌%◌, ◌^◌, ◌≤◌, ◌<◌, ◌≡◌, inl, inr, List, [], ◌∷◌, none, some, ◌==◌, arith,
  Bool-cases, Option-cases, sub32,
}
use trade_kernel.Mm.Heap.Blocks.{
  MemBlock, Heap, kernel_heap_start, kernel_heap_size, header_size, align8,
}
use trade_kernel.Mm.Heap.Alloc.{best_fit, Request, take_block, allocate, kmalloc_debug}
use trade_kernel.Mm.Heap.Search.{InBlocks, Found, best_fit-Found, Found-InBlocks, Search-cases}
use trade_kernel.Mm.Heap.Free.{
  Merged, coalesce_next, coalesce_prev, release_after, release, block_at, kfree, freed, absorb,
}

-- `bs` fills the addresses from `lo` up to `hi`.
abbrev pub Tiles : ℕ → List MemBlock → ℕ → Type 0
Tiles lo [] hi = lo ≡ hi
Tiles lo (b ∷ bs) hi = (b.addr ≡ lo) × (b.size % 8 ≡ 0) × Tiles (lo + header_size + b.size) bs hi

abbrev pub IsTiled : Heap → Type 0
IsTiled h = Tiles kernel_heap_start h.blocks (kernel_heap_start + kernel_heap_size)

pub Tiles-le : (lo hi : ℕ) (bs : List MemBlock) → Tiles lo bs hi → lo ≤ hi
Tiles-le lo hi [] t = omega arith
Tiles-le lo hi (b ∷ bs) t = omega (arith, Tiles-le (lo + 32 + b.size) hi bs t.2)

-- Splitting or taking a block that is large enough keeps the tiling.
take_block-Tiles :
    (r : Request) (a : ℕ) (bs : List MemBlock) (lo hi : ℕ)
    → Tiles lo bs hi
    → hi < 2 ^ 31
    → r.size % 8 ≡ 0
    → ((x : MemBlock) → block_at a bs ≡ some x → r.size ≤ x.size)
    → Tiles lo (take_block r a bs) hi
unfolding take_block block_at
take_block-Tiles r a [] lo hi t k m h = t
take_block-Tiles r a (b ∷ bs) lo hi t k m h = elim (Bool-cases (b.addr == a)) [
  | inl e ↦ ground (arith, h b, Tiles-le (lo + 32 + b.size) hi bs t.2)
  | inr f ↦
      rw f (t.0, t.1, take_block-Tiles r a bs (lo + 32 + b.size) hi t.2 k m (λ x p. h x (rw f p)))
]

pub InBlocks-le :
    (b : MemBlock) (bs : List MemBlock) (lo hi : ℕ) → Tiles lo bs hi → InBlocks b bs → lo ≤ b.addr
InBlocks-le b [] lo hi t m = absurd m
InBlocks-le b (x ∷ xs) lo hi t (inl e) = ground arith
InBlocks-le b (x ∷ xs) lo hi t (inr m) = omega (arith, InBlocks-le b xs (lo + 32 + x.size) hi t.2 m)

-- In a tiled list an address belongs to one block only.
pub block_at-InBlocks :
    (b : MemBlock) (bs : List MemBlock) (lo hi : ℕ)
    → Tiles lo bs hi
    → InBlocks b bs
    → block_at b.addr bs ≡ some b
unfolding block_at
block_at-InBlocks b [] lo hi t m = absurd m
block_at-InBlocks b (x ∷ xs) lo hi t (inl e) = ground arith
block_at-InBlocks b (x ∷ xs) lo hi t (inr m) = ground (
  arith,
  InBlocks-le b xs (lo + 32 + x.size) hi t.2 m,
  block_at-InBlocks b xs (lo + 32 + x.size) hi t.2 m,
)

-- What follows a successful search keeps the tiling.
allocate-Tiles :
    (r : Request) (b : MemBlock) (h : Heap) (lo hi : ℕ)
    → Tiles lo h.blocks hi
    → hi < 2 ^ 31
    → r.size % 8 ≡ 0
    → InBlocks b h.blocks
    → r.size ≤ b.size
    → Tiles lo (allocate r b h).1.blocks hi
unfolding allocate
allocate-Tiles r b h lo hi t k m i l = take_block-Tiles r b.addr h.blocks lo hi t k m (λ x p.
    let q : block_at b.addr h.blocks ≡ some b = block_at-InBlocks b h.blocks lo hi t i in
    ground arith)

align8-mod : (n : ℕ) → align8 n % 8 ≡ 0
unfolding align8
align8-mod n = omega arith

-- The blocks tile the heap after every call of kmalloc, whatever it returns.
pub kmalloc-IsTiled :
    (split_file size file line : ℕ) (h : Heap)
    → IsTiled h
    → IsTiled (kmalloc_debug split_file size file line h).1
unfolding kmalloc_debug
kmalloc-IsTiled split_file size file line h t = elim (Bool-cases (size == 0)) [
  | inl z ↦ rw z t
  | inr z ↦ elim (Search-cases (best_fit (align8 size) h.blocks none)) [
    | inl e ↦ rw (z, e, kmalloc_debug) t
    | inr (inl e) ↦ rw (z, e, kmalloc_debug) t
    | inr (inr (b, e)) ↦
        rw (z, e, kmalloc_debug) (found b (best_fit-Found (align8 size) h.blocks none b tt e))
  ]
]
  where
    request : Request
    request = record {
      size = align8 size;
      file = file;
      line = line;
      split_file = split_file;
      alloc_id = h.next_alloc_id;
    }

    found : (b : MemBlock) → Found (align8 size) h.blocks none b → IsTiled (allocate request b h).1
    found b f =
        allocate-Tiles request b h _ _ t (omega arith) (align8-mod size)
          (Found-InBlocks (align8 size) h.blocks b f) f.is_large

-- Joining a block and the one behind it keeps the tiling.
absorb-Tiles :
    (b n : MemBlock) (bs : List MemBlock) (lo hi : ℕ)
    → Tiles lo (b ∷ n ∷ bs) hi
    → hi < 2 ^ 31
    → Tiles lo (absorb b n ∷ bs) hi
absorb-Tiles b n bs lo hi t k =
    let e : lo + 32 + (absorb b n).size ≡ lo + 32 + b.size + 32 + n.size =
      omega (arith, Tiles-le (lo + 32 + b.size + 32 + n.size) hi bs t.2.2) in
    (t.0, omega (arith, Tiles-le (lo + 32 + b.size + 32 + n.size) hi bs t.2.2), rw e t.2.2)

coalesce_next-Tiles :
    (b : MemBlock) (bs : List MemBlock) (lo hi : ℕ)
    → Tiles lo (b ∷ bs) hi
    → hi < 2 ^ 31
    → Tiles lo (coalesce_next b bs).0 hi
unfolding coalesce_next
coalesce_next-Tiles b [] lo hi t k = t
coalesce_next-Tiles b (n ∷ ns) lo hi t k = elim (Bool-cases n.free) [
  | inl f ↦ rw (f, coalesce_next) (absorb-Tiles b n ns lo hi t k)
  | inr f ↦ rw (f, coalesce_next) t
]

coalesce_prev-Tiles :
    (p : MemBlock) (m : Merged) (lo hi : ℕ)
    → Tiles lo (p ∷ m.0) hi
    → hi < 2 ^ 31
    → Tiles lo (coalesce_prev p m).0 hi
unfolding coalesce_prev
coalesce_prev-Tiles p ([], c) lo hi t k = t
coalesce_prev-Tiles p (b ∷ bs, c) lo hi t k = elim (Bool-cases p.free) [
  | inl f ↦ rw (f, coalesce_prev) (absorb-Tiles p b bs lo hi t k)
  | inr f ↦ rw (f, coalesce_prev) t
]

release_after-Tiles :
    (a : ℕ) (p : MemBlock) (bs : List MemBlock) (lo hi : ℕ)
    → Tiles lo (p ∷ bs) hi
    → hi < 2 ^ 31
    → Tiles lo (release_after a p bs).0 hi
unfolding release_after
release_after-Tiles a p [] lo hi t k = t
release_after-Tiles a p (b ∷ bs) lo hi t k = elim (Bool-cases (b.addr == a)) [
  | inl e ↦ rw e (
      coalesce_prev-Tiles p (coalesce_next (freed b) bs) lo hi
        (t.0, t.1, coalesce_next-Tiles (freed b) bs (lo + 32 + p.size) hi t.2 k) k)
  | inr e ↦ rw e (t.0, t.1, release_after-Tiles a b bs (lo + 32 + p.size) hi t.2 k)
]

release-Tiles :
    (a : ℕ) (bs : List MemBlock) (lo hi : ℕ)
    → Tiles lo bs hi
    → hi < 2 ^ 31
    → Tiles lo (release a bs).0 hi
unfolding release
release-Tiles a [] lo hi t k = t
release-Tiles a (b ∷ bs) lo hi t k = elim (Bool-cases (b.addr == a)) [
  | inl e ↦ rw e (coalesce_next-Tiles (freed b) bs lo hi t k)
  | inr e ↦ rw e (release_after-Tiles a b bs lo hi t k)
]

-- kfree may be called with NULL or with a pointer behind a header of the list.
abbrev pub IsPointer : ℕ → Heap → Type 0
IsPointer ptr h = (ptr ≡ 0) ⊎ ((b : MemBlock) × (block_at (sub32 ptr 32) h.blocks ≡ some b))

-- The blocks tile the heap after a call of kfree with NULL or with a pointer behind a header of the list, whether
-- the block is in use, was freed before or has a magic number that is overwritten.
pub kfree-IsTiled : (ptr : ℕ) (h : Heap) → IsTiled h → IsPointer ptr h → IsTiled (kfree ptr h)
unfolding kfree
kfree-IsTiled ptr h t p = elim (Option-cases (block_at (sub32 ptr 32) h.blocks)) [
  | inl e ↦ elim (Bool-cases (ptr == 0)) [ inl z ↦ rw z t | inr z ↦ rw (z, e, kfree) t ]
  | inr (b, e) ↦
      rw (e, kfree)
        (ground (
          arith,
          release-Tiles b.addr h.blocks kernel_heap_start (kernel_heap_start + kernel_heap_size) t
              (omega arith),
        ))
]
