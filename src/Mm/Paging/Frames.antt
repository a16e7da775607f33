-- ===== src/Mm/Paging/Frames.antt =====
-- kernel/mm/paging.c: the allocator of physical page frames.
use trade_kernel.Base.{
  ℕ, ◌+◌, ◌%◌, ◌^◌, ◌≤◌, ◌<◌, ◌≡◌, ◌≢◌, refl, inl, inr, false, List, [], ◌∷◌, ne→==, ltb, ◌==◌, ◌⊎◌,
  Bool-cases, add32, sub32, arith,
}
use trade_kernel.Mm.Paging.{Paging, PageFrame, allocate_page_frame, allocate_from, free_page_frame}

-- A frame of the free list
unfoldable pub IsListed : ℕ → List PageFrame → Type 0
IsListed a [] = ⊥
IsListed a (f ∷ fs) = (f.physical_addr ≡ a) ⊎ IsListed a fs

-- Frames are page-aligned, below `next`, and listed once.
unfoldable pub AreFrames : ℕ → List PageFrame → Type 0
AreFrames next [] = Unit
AreFrames next (f ∷ fs) =
    (f.physical_addr % 4096 ≡ 0)
    × (1 ≤ f.physical_addr)
    × (f.physical_addr < next)
    × (¬ IsListed f.physical_addr fs)
    × AreFrames next fs

-- The state of the allocator; the code starts at 2 MB of 16 MB.
unfoldable pub HasFrames : Paging → Type 0
HasFrames s =
    (s.next_page_frame % 4096 ≡ 0)
    × (1 ≤ s.next_page_frame)
    × (s.next_page_frame < 2 ^ 31)
    × (s.max_memory < 2 ^ 31)
    × AreFrames s.next_page_frame s.free_page_frames

AreFrames-mono : (n m : ℕ) (fs : List PageFrame) → n ≤ m → AreFrames n fs → AreFrames m fs
unfolding AreFrames
AreFrames-mono n m [] h a = a
AreFrames-mono n m (f ∷ fs) h (a, b, c, d, e) = (a, b, omega arith, d, AreFrames-mono n m fs h e)

-- Every listed frame is below `next`.
IsListed-below : (n a : ℕ) (fs : List PageFrame) → AreFrames n fs → IsListed a fs → a < n
unfolding AreFrames IsListed
IsListed-below n a [] h l = absurd l
IsListed-below n a (f ∷ fs) (x, y, z, w, t) (inl e) = omega arith
IsListed-below n a (f ∷ fs) (x, y, z, w, t) (inr l) = IsListed-below n a fs t l

allocate_from-HasFrames :
    (fs : List PageFrame) (s : Paging)
    → AreFrames s.next_page_frame fs
    → HasFrames s
    → let (a, t) = allocate_from fs s in
      HasFrames t
      × (1 ≤ a
          → (a % 4096 ≡ 0)
            × (a < t.next_page_frame)
            × (IsListed a fs ⊎ (a ≡ s.next_page_frame))
            × (¬ IsListed a t.free_page_frames))
unfolding allocate_from HasFrames AreFrames IsListed
allocate_from-HasFrames (f ∷ rest) s (x, y, z, w, t) (a, b, c, d, e) =
    ((a, b, c, d, t), λ _. (x, z, inl (inl refl), w))
allocate_from-HasFrames [] s u (a, b, c, d, e) =
    elim (Bool-cases (ltb s.max_memory (add32 s.next_page_frame 4096))) [
      | inl full ↦ rw full ((a, b, c, d, e), λ h. absurd (omega arith))
      | inr room ↦
          let sum : add32 s.next_page_frame 4096 ≡ s.next_page_frame + 4096 = omega arith in
          let fits : s.next_page_frame + 4096 ≤ s.max_memory = ground arith in
          rw (room, sum)
            (
              (
                omega arith,
                omega arith,
                omega arith,
                d,
                AreFrames-mono s.next_page_frame (s.next_page_frame + 4096) s.free_page_frames
                    (omega arith) e,
              ),
              λ _. (
                a,
                omega arith,
                inr refl,
                λ l. ground (
                  arith,
                  IsListed-below s.next_page_frame s.next_page_frame s.free_page_frames e l,
                ),
              ),
            )
    ]

-- A frame that allocate_page_frame returns is page-aligned and not 0, was free or new before, and is not in
-- the free list after; the allocator's state stays well-formed.
pub allocate_page_frame-HasFrames :
    (s : Paging)
    → HasFrames s
    → let (a, t) = allocate_page_frame s in
      HasFrames t
      × (1 ≤ a
          → (a % 4096 ≡ 0)
            × (a < t.next_page_frame)
            × (IsListed a s.free_page_frames ⊎ (a ≡ s.next_page_frame))
            × (¬ IsListed a t.free_page_frames))
unfolding allocate_page_frame HasFrames
allocate_page_frame-HasFrames s (a, b, c, d, e) =
    allocate_from-HasFrames s.free_page_frames s e (a, b, c, d, e)

-- A frame that was allocated, is not in the free list and is freed comes back from the next
-- allocate_page_frame, which leaves the free list and the counts of the allocator as they were.
pub allocate_page_frame-free_page_frame :
    (addr frame : ℕ) (s : Paging)
    → frame ≢ 0
    → HasFrames s
    → addr % 4096 ≡ 0
    → 1 ≤ addr
    → addr < s.next_page_frame
    → (¬ IsListed addr s.free_page_frames)
    → s.mem_stats.free_pages < 2 ^ 32
    → HasFrames (free_page_frame addr frame s)
      × (allocate_page_frame (free_page_frame addr frame s) ≡ (addr, s))
unfolding allocate_page_frame allocate_from free_page_frame HasFrames AreFrames
allocate_page_frame-free_page_frame addr frame s nz (a, b, c, d, e) al pos low out small =
    let some_frame : (frame == 0) ≡ false = ne→== frame 0 nz in
    let count : sub32 (add32 s.mem_stats.free_pages 1) 1 ≡ s.mem_stats.free_pages = omega arith in
    rw (some_frame, count) ((a, b, c, d, (al, pos, low, out, e)), refl)
