-- ===== src/Mm/Heap/Search.antt =====
-- kernel/mm/memory.c: what the best-fit walk of _kmalloc_debug finds.
use trade_kernel.Base.{
  ℕ, ◌≤◌, ◌≡◌, ◌⊎◌, inl, inr, refl, true, List, [], ◌∷◌, Option, none, some, arith, ◌&&◌, ltb, leb,
  if◌then◌else◌,
}
use trade_kernel.Mm.Heap.Blocks.{MemBlock, memory_guard_magic}
use trade_kernel.Mm.Heap.Alloc.{choose, Search, corrupted, fit, best_fit}

-- `b` is one of the blocks.
abbrev pub InBlocks : MemBlock → List MemBlock → Type 0
InBlocks b [] = ⊥
InBlocks b (x ∷ xs) = (b ≡ x) ⊎ InBlocks b xs

-- What a search started from `best` has found: a free block of the list that is large enough, or
-- `best`.
pub record Found (size : ℕ) (bs : List MemBlock) (best : Option MemBlock) (b : MemBlock)
    : Type 0 where
  pub from_list : InBlocks b bs ⊎ (best ≡ some b)
  pub is_free : b.free ≡ true
  pub is_large : size ≤ b.size

abbrev pub Suits : ℕ → Option MemBlock → Type 0
Suits size none = Unit {0}
Suits size (some c) = (c.free ≡ true) × (size ≤ c.size)

choose-Suits :
    (size : ℕ) (b : MemBlock) (best : Option MemBlock)
    → Suits size best
    → Suits size (choose size b best)
unfolding choose
choose-Suits size b none s = ground arith
choose-Suits size b (some c) s = ground arith

choose-from :
    (size : ℕ) (x : MemBlock) (best : Option MemBlock) (b : MemBlock)
    → choose size x best ≡ some b
    → (b ≡ x) ⊎ (best ≡ some b)
unfolding choose
choose-from size x none b e = ground arith
choose-from size x (some c) b e = ground arith

-- A walk that ends well passes the magic number of the first block.
best_fit-cons :
    (size : ℕ) (x : MemBlock) (xs : List MemBlock) (best o : Option MemBlock)
    → best_fit size (x ∷ xs) best ≡ fit o
    → (x.magic ≡ memory_guard_magic) × (best_fit size xs (choose size x best) ≡ fit o)
unfolding best_fit
best_fit-cons size x xs best o e = ground arith

pub best_fit-Found :
    (size : ℕ) (bs : List MemBlock) (best : Option MemBlock) (b : MemBlock)
    → Suits size best
    → best_fit size bs best ≡ fit (some b)
    → Found size bs best b
unfolding best_fit
best_fit-Found size [] none b s e = absurd (cc)
best_fit-Found size [] (some c) b s e = ground arith
best_fit-Found size (x ∷ xs) best b s e =
    let ih : Found size xs (choose size x best) b =
      best_fit-Found size xs (choose size x best) b (choose-Suits size x best s)
        (best_fit-cons size x xs best (some b) e).1 in
    record {
      from_list = elim ih.from_list [
        | inl m ↦ inl (inr m)
        | inr c ↦ elim (choose-from size x best b c) [ inl p ↦ inl (inl p) | inr q ↦ inr q ]
      ];
      is_free = ih.is_free;
      is_large = ih.is_large;
    }

-- The walk never trades `best` for a larger block.
choose-le :
    (size : ℕ) (x c : MemBlock)
    → (d : MemBlock) × (choose size x (some c) ≡ some d) × (d.size ≤ c.size)
unfolding choose
choose-le size x c =
    (if x.free && leb size x.size && ltb x.size c.size then x else c, ground arith, ground arith)

best_fit-le :
    (size : ℕ) (bs : List MemBlock) (c b : MemBlock)
    → best_fit size bs (some c) ≡ fit (some b)
    → b.size ≤ c.size
unfolding best_fit
best_fit-le size [] c b e = ground arith
best_fit-le size (x ∷ xs) c b e =
    let (d, p, l) = choose-le size x c in
    let r : best_fit size xs (choose size x (some c)) ≡ fit (some b) =
      (best_fit-cons size x xs (some c) (some b) e).1 in
    omega (arith, best_fit-le size xs d b (rw p at r))

-- A block that is free and large enough is taken, or one no larger is already at hand.
choose-least :
    (size : ℕ) (y : MemBlock) (best : Option MemBlock)
    → y.free ≡ true
    → size ≤ y.size
    → (d : MemBlock) × (choose size y best ≡ some d) × (d.size ≤ y.size)
unfolding choose
choose-least size y none f l = (y, ground arith, omega arith)
choose-least size y (some c) f l = (if ltb y.size c.size then y else c, ground arith, ground arith)

-- Of the blocks that are free and large enough the walk finds one of the least size.
pub best_fit-least :
    (size : ℕ) (bs : List MemBlock) (best : Option MemBlock) (b y : MemBlock)
    → best_fit size bs best ≡ fit (some b)
    → InBlocks y bs
    → y.free ≡ true
    → size ≤ y.size
    → b.size ≤ y.size
best_fit-least size [] best b y e m f l = absurd m
best_fit-least size (x ∷ xs) best b y e (inl p) f l =
    let (d, q, k) = choose-least size y best f l in
    let r : best_fit size xs (choose size y best) ≡ fit (some b) =
      rw p (best_fit-cons size x xs best (some b) e).1 in
    omega (arith, best_fit-le size xs d b (rw q at r))
best_fit-least size (x ∷ xs) best b y e (inr m) f l =
    best_fit-least size xs (choose size x best) b y (best_fit-cons size x xs best (some b) e).1 m f
      l

-- Once a block is at hand, the walk does not come back empty.
best_fit-keeps :
    (size : ℕ) (bs : List MemBlock) (c : MemBlock) → best_fit size bs (some c) ≡ fit none → ⊥
unfolding best_fit
best_fit-keeps size [] c e = cc
best_fit-keeps size (x ∷ xs) c e =
    let (d, p, l) = choose-le size x c in
    let r : best_fit size xs (choose size x (some c)) ≡ fit none =
      (best_fit-cons size x xs (some c) none e).1 in
    best_fit-keeps size xs d (rw p at r)

-- A walk that comes back empty saw no free block that is large enough.
pub best_fit-none :
    (size : ℕ) (bs : List MemBlock) (best : Option MemBlock) (y : MemBlock)
    → best_fit size bs best ≡ fit none
    → InBlocks y bs
    → y.free ≡ true
    → size ≤ y.size
    → ⊥
best_fit-none size [] best y e m f l = m
best_fit-none size (x ∷ xs) best y e (inl p) f l =
    let (d, q, k) = choose-least size y best f l in
    let r : best_fit size xs (choose size y best) ≡ fit none =
      rw p (best_fit-cons size x xs best none e).1 in
    best_fit-keeps size xs d (rw q at r)
best_fit-none size (x ∷ xs) best y e (inr m) f l =
    best_fit-none size xs (choose size x best) y (best_fit-cons size x xs best none e).1 m f l

pub Search-cases :
    (s : Search) → (s ≡ corrupted) ⊎ ((s ≡ fit none) ⊎ ((b : MemBlock) × (s ≡ fit (some b))))
Search-cases corrupted = inl refl
Search-cases (fit none) = inr (inl refl)
Search-cases (fit (some b)) = inr (inr (b, refl))

pub Found-InBlocks :
    (size : ℕ) (bs : List MemBlock) (b : MemBlock) → Found size bs none b → InBlocks b bs
Found-InBlocks size bs b f = elim f.from_list [ inl i ↦ i | inr e ↦ absurd (cc) ]
