-- ===== src/Mm/Heap/Accounting.antt =====
-- kernel/mm/memory.c: used_memory and free_memory of the heap statistics.
use trade_kernel.Base.{
  ℕ, ◌+◌, ◌^◌, ◌≤◌, ◌<◌, ◌≡◌, inl, inr, List, [], ◌∷◌, none, some, ◌==◌, arith, Bool-cases,
  Option-cases, add32, sub32,
}
use trade_kernel.Mm.Heap.Blocks.{MemBlock, HeapStats, Heap, align8}
use trade_kernel.Mm.Heap.Alloc.{best_fit, Request, allocate, kmalloc_debug, taken_size, count_taken}
use trade_kernel.Mm.Heap.Search.{InBlocks, best_fit-Found, Found-InBlocks, Search-cases}
use trade_kernel.Mm.Heap.Tiling.{Tiles, IsTiled, Tiles-le}
use trade_kernel.Mm.Heap.Free.{block_at, release, kfree, count_freed}

-- The two counters add up to the size of the heap, as 32-bit words.
abbrev pub IsBalanced : HeapStats → Type 0
IsBalanced s = add32 s.used_memory s.free_memory ≡ s.total_memory

Tiles-size :
    (bs : List MemBlock) (b : MemBlock) (lo hi : ℕ) → Tiles lo bs hi → InBlocks b bs → b.size ≤ hi
Tiles-size [] b lo hi t i = absurd i
Tiles-size (x ∷ xs) b lo hi t (inl e) = ground (arith, Tiles-le (lo + 32 + x.size) hi xs t.2)
Tiles-size (x ∷ xs) b lo hi t (inr i) = Tiles-size xs b (lo + 32 + x.size) hi t.2 i

block_at-in : (a : ℕ) (bs : List MemBlock) (b : MemBlock) → block_at a bs ≡ some b → InBlocks b bs
unfolding block_at
block_at-in a [] b e = cc
block_at-in a (x ∷ xs) b e = elim (Bool-cases (x.addr == a)) [
  | inl h ↦ inl (ground arith)
  | inr h ↦ inr (block_at-in a xs b (rw (h) at e))
]

count_taken-IsBalanced :
    (s : HeapStats) (size : ℕ) → size < 2 ^ 32 → IsBalanced s → IsBalanced (count_taken size s)
count_taken-IsBalanced s size l h = omega arith

count_freed-IsBalanced :
    (s : HeapStats) (size k : ℕ) → size < 2 ^ 32 → IsBalanced s → IsBalanced (count_freed size k s)
count_freed-IsBalanced s size k l h = omega arith

align8-lt : (n : ℕ) → align8 n < 2 ^ 32
unfolding align8
align8-lt n = omega arith

-- On a tiled heap kmalloc keeps the balance of the two counters, whatever it returns.
pub kmalloc-IsBalanced :
    (split_file size file line : ℕ) (h : Heap)
    → IsTiled h
    → IsBalanced h.stats
    → IsBalanced (kmalloc_debug split_file size file line h).1.stats
unfolding kmalloc_debug allocate align8
kmalloc-IsBalanced split_file size file line h t s = elim (Bool-cases (size == 0)) [
  | inl z ↦ rw z s
  | inr z ↦ elim (Search-cases (best_fit (align8 size) h.blocks none)) [
    | inl e ↦ rw (z, e, kmalloc_debug) s
    | inr (inl e) ↦ rw (z, e, kmalloc_debug) s
    | inr (inr (b, e)) ↦
        rw (z, e, kmalloc_debug, allocate)
          (count_taken-IsBalanced h.stats _
            (taken b (
              Tiles-size h.blocks b _ _ t (
                Found-InBlocks (align8 size) h.blocks b
                  (best_fit-Found (align8 size) h.blocks none b tt e))))
            s)
  ]
]
  where
    r : Request
    r = record {
      size = align8 size;
      file = file;
      line = line;
      split_file = split_file;
      alloc_id = h.next_alloc_id;
    }

    taken : (b : MemBlock) → b.size ≤ 0x50_0000 → taken_size r b < 2 ^ 32
    taken b l = ground (arith, align8-lt size)

-- On a tiled heap kfree keeps the balance of the two counters, whatever pointer it is given.
pub kfree-IsBalanced :
    (ptr : ℕ) (h : Heap) → IsTiled h → IsBalanced h.stats → IsBalanced (kfree ptr h).stats
unfolding kfree
kfree-IsBalanced ptr h t s = elim (Option-cases (block_at (sub32 ptr 32) h.blocks)) [
  | inl e ↦ elim (Bool-cases (ptr == 0)) [ inl z ↦ rw z s | inr z ↦ rw (z, e, kfree) s ]
  | inr (b, e) ↦
      rw (e, kfree)
        (ground (
          arith,
          count_freed-IsBalanced h.stats b.size (release b.addr h.blocks).1,
          Tiles-size h.blocks b _ _ t (block_at-in _ h.blocks b e),
        ))
]
