-- ===== src/Mm/Heap/Corruption.antt =====
-- kernel/mm/memory.c: a freed header that stays in the list carries MEMORY_FREE_MAGIC, which the walk
-- of _kmalloc_debug takes for corruption.
use trade_kernel.Base.{
  ℕ, ◌≡◌, ◌≢◌, ◌⊎◌, inl, inr, false, List, [], ◌∷◌, Option, none, some, ◌==◌, arith, Bool-cases,
  sub32, ne→==,
}
use trade_kernel.Mm.Heap.Blocks.{MemBlock, Heap, memory_guard_magic, header_size, align8}
use trade_kernel.Mm.Heap.Alloc.{choose, corrupted, best_fit, kmalloc_debug}
use trade_kernel.Mm.Heap.Free.{
  coalesce_next, coalesce_prev, release_after, release, Merged, block_at, kfree, freed,
}

-- Some header lacks the guard magic number.
abbrev pub HasBad : List MemBlock → Type 0
HasBad [] = ⊥
HasBad (b ∷ bs) = (b.magic ≢ memory_guard_magic) ⊎ HasBad bs

pub best_fit-HasBad :
    (size : ℕ) (bs : List MemBlock) (best : Option MemBlock)
    → HasBad bs
    → best_fit size bs best ≡ corrupted
unfolding best_fit
best_fit-HasBad size [] best h = absurd h
best_fit-HasBad size (b ∷ bs) best (inl n) = ground arith
best_fit-HasBad size (b ∷ bs) best (inr h) =
    ground (arith, best_fit-HasBad size bs (choose size b best) h)

-- The block at address `a` is in the list, and the block in front of it, if any, is in use.
abbrev pub UsedBefore : ℕ → List MemBlock → Type 0
UsedBefore a [] = ⊥
UsedBefore a (b ∷ []) = b.addr ≡ a
UsedBefore a (b ∷ c ∷ bs) =
    (b.addr ≡ a) ⊎ ((b.addr ≢ a) × ((c.addr ≡ a → b.free ≡ false) × UsedBefore a (c ∷ bs)))

coalesce_next-HasBad : (b : MemBlock) (bs : List MemBlock) → HasBad (coalesce_next (freed b) bs).0
unfolding coalesce_next
coalesce_next-HasBad b [] = inl (λ e. absurd (omega arith))
coalesce_next-HasBad b (n ∷ ns) = elim (Bool-cases n.free) [
  | inl f ↦ rw f (inl (λ e. absurd (omega arith)))
  | inr f ↦ rw f (inl (λ e. absurd (omega arith)))
]

coalesce_prev-HasBad :
    (p : MemBlock) (m : Merged) → p.free ≡ false → HasBad m.0 → HasBad (coalesce_prev p m).0
unfolding coalesce_prev
coalesce_prev-HasBad p ([], k) f h = absurd h
coalesce_prev-HasBad p (b ∷ bs, k) f h = rw (f, coalesce_prev) (inr h)

release_after-HasBad :
    (a : ℕ) (p : MemBlock) (bs : List MemBlock)
    → p.addr ≢ a
    → UsedBefore a (p ∷ bs)
    → HasBad (release_after a p bs).0
unfolding release_after
release_after-HasBad a p [] n u = absurd (n u)
release_after-HasBad a p (b ∷ bs) n (inl e) = absurd (n e)
release_after-HasBad a p (b ∷ bs) n (inr (m, (f, u))) = elim (Bool-cases (b.addr == a)) [
  | inl e ↦ rw e (coalesce_prev-HasBad p _ (f (ground arith)) (coalesce_next-HasBad b bs))
  | inr e ↦ rw e (inr (release_after-HasBad a b bs (λ q. ground arith) u))
]

release-HasBad : (a : ℕ) (bs : List MemBlock) → UsedBefore a bs → HasBad (release a bs).0
unfolding release
release-HasBad a [] u = absurd u
release-HasBad a (b ∷ bs) u = elim (Bool-cases (b.addr == a)) [
  | inl e ↦ rw e (coalesce_next-HasBad b bs)
  | inr e ↦ rw e (release_after-HasBad a b bs (λ q. ground arith) u)
]

kfree-HasBad :
    (ptr : ℕ) (h : Heap) (b : MemBlock)
    → ptr ≢ 0
    → block_at (sub32 ptr header_size) h.blocks ≡ some b
    → b.magic ≡ memory_guard_magic
    → b.free ≡ false
    → UsedBefore b.addr h.blocks
    → HasBad (kfree ptr h).blocks
unfolding kfree
kfree-HasBad ptr h b n e g f u =
    rw (ne→== ptr 0 n, e, g, f, kfree) (release-HasBad b.addr h.blocks u)

-- After kfree of a block in use that is not merged into a free block in front of it, kmalloc returns
-- NULL for every size and changes nothing.
pub kmalloc-kfree :
    (split_file size file line ptr : ℕ) (h : Heap) (b : MemBlock)
    → ptr ≢ 0
    → block_at (sub32 ptr header_size) h.blocks ≡ some b
    → b.magic ≡ memory_guard_magic
    → b.free ≡ false
    → UsedBefore b.addr h.blocks
    → kmalloc_debug split_file size file line (kfree ptr h) ≡ (0, kfree ptr h)
unfolding kmalloc_debug
kmalloc-kfree split_file size file line ptr h b n e g f u = elim (Bool-cases (size == 0)) [
  | inl z ↦ rw z
  | inr z ↦ rw (z, best_fit-HasBad (align8 size) (kfree ptr h).blocks none bad, kmalloc_debug)
]
  where
    bad : HasBad (kfree ptr h).blocks
    bad = kfree-HasBad ptr h b n e g f u
