-- ===== src/Proc/Scheduler/Pick.antt =====
-- kernel/proc/scheduler.c: scheduler_pick_next takes the first process of the best non-empty queue.
use trade_kernel.Base.{
  ℕ, zero, suc, ◌+◌, ◌^◌, ◌≤◌, ◌<◌, ◌≡◌, ◌≢◌, ◌⊎◌, ◌∙◌, sym, ap, subst, refl, inl, inr, true, false,
  List, [], ◌∷◌, ltb, ◌==◌, ne→==, ==→eq, Bool-cases, length, arith, u32,
}
use trade_kernel.Proc.State.{Kernel}
use trade_kernel.Proc.Queue.{queue_remove_head}
use trade_kernel.Proc.Queue.Links.{IsChain, IsQueue}
use trade_kernel.Proc.Queue.Refine.{queue_remove_head-IsQueue}
use trade_kernel.Proc.Scheduler.{pick_from, scheduler_pick_next}

-- The queues from `i` to before `i + n` hold the lists `qs`.
unfoldable pub AreQueues : ℕ → ℕ → (ℕ → List ℕ) → Kernel → Type 0
AreQueues n i qs k = (j : ℕ) → i ≤ j → j < i + n → IsQueue k j (qs j) × (length (qs j) < 2 ^ 32)

-- A process was taken from the first queue that is not empty.
unfoldable pub IsTaken : ℕ → ℕ → (ℕ → List ℕ) → ℕ × Kernel → Type 0
IsTaken n i qs (p, t) =
    (j : ℕ) × (xs : List ℕ) × (i ≤ j)
    × (j < i + n)
    × ((v : ℕ) → i ≤ v → v < j → qs v ≡ [])
    × (qs j ≡ p ∷ xs)
    × IsQueue t j xs

list_cases : (xs : List ℕ) → (xs ≡ []) ⊎ ((x : ℕ) × (ys : List ℕ) × (xs ≡ x ∷ ys))
list_cases [] = inl refl
list_cases (x ∷ xs) = inr (x, xs, refl)

head_nonzero : (q x : ℕ) (xs : List ℕ) (k : Kernel) → IsQueue k q (x ∷ xs) → x ≢ 0
unfolding IsQueue IsChain
head_nonzero q x xs k ((a, b, c, d, e), n) = b

count_of :
    (q : ℕ) (xs : List ℕ) (k : Kernel) → IsQueue k q xs → (k.queues q).count ≡ u32 (length xs)
unfolding IsQueue
count_of q xs k (c, n) = n

-- The range of empty queues grows at its start.
extend :
    (i m : ℕ) (qs : ℕ → List ℕ)
    → qs i ≡ []
    → ((v : ℕ) → i + 1 ≤ v → v < m → qs v ≡ [])
    → (v : ℕ) → i ≤ v
    → v < m
    → qs v ≡ []
extend i m qs e h v a b = elim (Bool-cases (i == v)) [
  | inl s ↦ subst (λ w. qs w ≡ []) (==→eq i v s) e
  | inr s ↦ h v (ground arith) b
]

extend_all :
    (n i : ℕ) (qs : ℕ → List ℕ)
    → qs i ≡ []
    → ((v : ℕ) → i + 1 ≤ v → v < i + 1 + n → qs v ≡ [])
    → (v : ℕ) → i ≤ v
    → v < i + suc n
    → qs v ≡ []
extend_all n i qs e h v a b = extend i (i + 1 + n) qs e h v a (omega arith)

pick_from-first :
    (n i : ℕ) (qs : ℕ → List ℕ) (k : Kernel)
    → AreQueues n i qs k
    → IsTaken n i qs (pick_from n i k)
      ⊎ (((j : ℕ) → i ≤ j → j < i + n → qs j ≡ []) × (pick_from n i k ≡ (k.idle_process, k)))
unfolding pick_from AreQueues IsTaken
pick_from-first zero i qs k h = inr ((λ j a b. absurd (omega arith)), refl)
pick_from-first (suc n) i qs k h = elim (list_cases (qs i)) [
  | inl e ↦
      let (is, small) = h i (omega arith) (omega arith) in
      let none_there : ltb 0 (k.queues i).count ≡ false =
        let c : (k.queues i).count ≡ 0 = count_of i (qs i) k is ∙ ap (λ v. u32 (length v)) e in
        ground arith in
      elim (pick_from-first n (i + 1) qs k (λ j a b. h j (omega arith) (omega arith))) [
        | inl (j, xs, a, b, c, d, f) ↦
            inl (rw none_there (j, xs, omega arith, omega arith, extend i j qs e c, d, f))
        | inr (c, d) ↦ inr (extend_all n i qs e c, rw none_there d)
      ]
  | inr (x, xs, e) ↦
      let (is, small) = h i (omega arith) (omega arith) in
      let is' = subst (λ v. IsQueue k i v) e is in
      let some_there : ltb 0 (k.queues i).count ≡ true =
        let c : (k.queues i).count ≡ u32 (length (x ∷ xs)) = count_of i (x ∷ xs) k is' in
        let l : length (x ∷ xs) < 2 ^ 32 = subst (λ v. length v < 2 ^ 32) e small in ground arith in
      let (r, q) = queue_remove_head-IsQueue i x xs k is' in
      let found : ((queue_remove_head i k).0 == 0) ≡ false =
        ne→== _ 0 (λ z. head_nonzero i x xs k is' (sym r ∙ z)) in
      inl (
        rw (some_there, found)
          (
            i,
            xs,
            omega arith,
            omega arith,
            (λ v a b. absurd (omega arith)),
            e ∙ ap (λ v. v ∷ xs) (sym r),
            q,
          ))
]

-- When every ready queue holds a list of processes, scheduler_pick_next takes the first process of the
-- non-empty queue with the least number, and leaves the rest of that queue; if all five are empty it
-- returns the idle process and changes nothing.
pub scheduler_pick_next-first :
    (qs : ℕ → List ℕ) (k : Kernel)
    → AreQueues 5 0 qs k
    → IsTaken 5 0 qs (scheduler_pick_next k)
      ⊎ (((j : ℕ) → 0 ≤ j → j < 0 + 5 → qs j ≡ []) × (scheduler_pick_next k ≡ (k.idle_process, k)))
unfolding scheduler_pick_next
scheduler_pick_next-first qs k h = pick_from-first 5 0 qs k h
