-- ===== src/Mm/Heap/Fit.antt =====
-- kernel/mm/memory.c: which block _kmalloc_debug hands out, and when it returns NULL.
use trade_kernel.Base.{
  ℕ, ◌+◌, ◌-◌, ◌%◌, ◌^◌, ◌≤◌, ◌<◌, ◌≡◌, ◌≢◌, inl, inr, refl, true, false, List, [], ◌∷◌, Option,
  none, some, ltb, leb, ◌==◌, arith, Bool-cases, add32, ==-refl, leb→le,
}
use trade_kernel.Mm.Heap.Blocks.{
  MemBlock, Heap, kernel_heap_start, kernel_heap_size, memory_guard_magic, header_size, align8,
}
use trade_kernel.Mm.Heap.Alloc.{
  corrupted, fit, best_fit, Request, take_block, allocate, kmalloc_debug, taken_size, taken_block,
  choose,
}
use trade_kernel.Mm.Heap.Search.{
  InBlocks, Found, best_fit-Found, Found-InBlocks, Search-cases, best_fit-none, best_fit-least,
}
use trade_kernel.Mm.Heap.Tiling.{Tiles, IsTiled, Tiles-le, InBlocks-le}
use trade_kernel.Mm.Heap.Free.{block_at}

-- Every header has the guard magic number.
abbrev pub AllGuarded : List MemBlock → Type 0
AllGuarded [] = Unit {0}
AllGuarded (b ∷ bs) = (b.magic ≡ memory_guard_magic) × AllGuarded bs

best_fit-guarded :
    (size : ℕ) (bs : List MemBlock) (best : Option MemBlock)
    → AllGuarded bs
    → best_fit size bs best ≢ corrupted
unfolding best_fit
best_fit-guarded size [] best g e = cc
best_fit-guarded size (b ∷ bs) best g e =
    ground (arith, best_fit-guarded size bs (choose size b best) g.1)

-- The header of the chosen block after the call.
take_block-at :
    (r : Request) (b : MemBlock) (bs : List MemBlock) (lo hi : ℕ)
    → Tiles lo bs hi
    → InBlocks b bs
    → block_at b.addr (take_block r b.addr bs) ≡ some (taken_block r (taken_size r b) b)
unfolding take_block block_at
take_block-at r b [] lo hi t i = absurd i
take_block-at r b (x ∷ xs) lo hi t (inl e) = ground arith
take_block-at r b (x ∷ xs) lo hi t (inr i) = ground (
  arith,
  InBlocks-le b xs (lo + 32 + x.size) hi t.2 i,
  take_block-at r b xs (lo + 32 + x.size) hi t.2 i,
)

-- A block in use is not touched.
take_block-keeps :
    (r : Request) (b y : MemBlock) (bs : List MemBlock) (lo hi : ℕ)
    → Tiles lo bs hi
    → InBlocks b bs
    → b.free ≡ true
    → InBlocks y bs
    → y.free ≡ false
    → InBlocks y (take_block r b.addr bs)
unfolding take_block
take_block-keeps r b y [] lo hi t i f j g = absurd i
take_block-keeps r b y (x ∷ xs) lo hi t (inl e) f (inl p) g = absurd (ground arith)
take_block-keeps r b y (x ∷ xs) lo hi t (inl e) f (inr j) g =
    let same : x.addr ≡ b.addr = ground arith in
    elim (Bool-cases (ltb (add32 (add32 r.size header_size) 16) x.size)) [
      | inl s ↦ rw (same, ==-refl b.addr, s) (inr (inr j))
      | inr s ↦ rw (same, ==-refl b.addr, s) (inr j)
    ]
take_block-keeps r b y (x ∷ xs) lo hi t (inr i) f j g =
    let other : (x.addr == b.addr) ≡ false =
      ground (arith, InBlocks-le b xs (lo + 32 + x.size) hi t.2 i) in
    rw other (elim j [
      | inl p ↦ inl p
      | inr k ↦ inr (take_block-keeps r b y xs (lo + 32 + x.size) hi t.2 i f k g)
    ])

align8-ge : (n : ℕ) → n ≤ 2 ^ 32 - 8 → n ≤ align8 n
unfolding align8
align8-ge n h = omega arith

-- What a caller of kmalloc can rely on when the pointer is not NULL.
pub record Granted (size ptr : ℕ) (before after : List MemBlock) : Type 0 where
  pub chosen : MemBlock
  pub taken : MemBlock
  pub chosen_in : InBlocks chosen before
  pub chosen_free : chosen.free ≡ true
  pub taken_at : block_at (ptr - header_size) after ≡ some taken
  pub taken_used : taken.free ≡ false
  pub taken_large : size ≤ taken.size
  pub aligned : ptr % 8 ≡ 0
  pub tightest :
      (y : MemBlock)
      → InBlocks y before
      → y.free ≡ true
      → align8 size ≤ y.size
      → chosen.size ≤ y.size
  pub others_kept : (y : MemBlock) → InBlocks y before → y.free ≡ false → InBlocks y after

InBlocks-place :
    (b : MemBlock) (bs : List MemBlock) (lo hi : ℕ)
    → Tiles lo bs hi
    → lo % 8 ≡ 0
    → InBlocks b bs
    → (b.addr % 8 ≡ 0) × (b.addr + 32 ≤ hi)
InBlocks-place b [] lo hi t a i = absurd i
InBlocks-place b (x ∷ xs) lo hi t a (inl e) = ground (arith, Tiles-le (lo + 32 + x.size) hi xs t.2)
InBlocks-place b (x ∷ xs) lo hi t a (inr i) =
    InBlocks-place b xs (lo + 32 + x.size) hi t.2 (omega arith) i

abbrev request_of : ℕ → ℕ → ℕ → ℕ → Heap → Request
request_of split_file size file line h = record {
  size = align8 size;
  file = file;
  line = line;
  split_file = split_file;
  alloc_id = h.next_alloc_id;
}

allocate-Granted :
    (split_file size file line : ℕ) (h : Heap) (b : MemBlock)
    → IsTiled h
    → size ≤ 2 ^ 32 - 8
    → best_fit (align8 size) h.blocks none ≡ fit (some b)
    → Found (align8 size) h.blocks none b
    → InBlocks b h.blocks
    → let (p, h') = allocate (request_of split_file size file line h) b h in
      (p ≢ 0) × Granted size p h.blocks h'.blocks
unfolding allocate
allocate-Granted split_file size file line h b t s e f i =
    let place : (b.addr % 8 ≡ 0) × (b.addr + 32 ≤ kernel_heap_start + kernel_heap_size) =
      InBlocks-place b h.blocks _ _ t (omega arith) i in
    let back : add32 b.addr 32 - 32 ≡ b.addr = omega arith in
    (
      omega arith,
      record {
        chosen = b;
        taken = taken_block r (taken_size r b) b;
        chosen_in = i;
        chosen_free = f.is_free;
        taken_at = rw back (take_block-at r b h.blocks _ _ t i);
        taken_used = refl;
        taken_large = ground (arith, align8-ge size s, f.is_large);
        aligned = omega arith;
        tightest = λ y j g l. best_fit-least (align8 size) h.blocks none b y e j g l;
        others_kept = λ y j g. take_block-keeps r b y h.blocks _ _ t i f.is_free j g;
      },
    )
  where
    r : Request
    r = request_of split_file size file line h

-- On a tiled heap whose headers are all intact, kmalloc of a size from 1 to 2 ^ 32 - 8 returns NULL
-- only if no free block can hold the rounded size.
pub kmalloc-eq-null :
    (split_file size file line : ℕ) (h : Heap) (y : MemBlock)
    → IsTiled h
    → AllGuarded h.blocks
    → 0 < size
    → size ≤ 2 ^ 32 - 8
    → (kmalloc_debug split_file size file line h).0 ≡ 0
    → InBlocks y h.blocks
    → y.free ≡ true
    → y.size < align8 size
unfolding kmalloc_debug
kmalloc-eq-null split_file size file line h y t g pos s n i f =
    let z : (size == 0) ≡ false = ground arith in
    elim (Search-cases (best_fit (align8 size) h.blocks none)) [
      | inl e ↦ absurd (best_fit-guarded (align8 size) h.blocks none g e)
      | inr (inl e) ↦ elim (Bool-cases (leb (align8 size) y.size)) [
        | inl l ↦ absurd (best_fit-none (align8 size) h.blocks none y e i f (leb→le _ _ l))
        | inr l ↦ ground arith
      ]
      | inr (inr (b, e)) ↦
          let f : Found (align8 size) h.blocks none b =
            best_fit-Found (align8 size) h.blocks none b tt e in
          absurd (
            (allocate-Granted split_file size file line h b t s e f
                (Found-InBlocks (align8 size) h.blocks b f)).0
              (rw (z, e, kmalloc_debug) at n))
    ]
