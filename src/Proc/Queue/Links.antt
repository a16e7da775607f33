-- ===== src/Proc/Queue/Links.antt =====
-- kernel/proc/scheduler.c: which list of processes a queue's links describe.
use trade_kernel.Base.{
  ℕ, ◌≡◌, ◌≢◌, ◌⊎◌, ◌∙◌, sym, ap, subst, refl, inl, inr, List, [], ◌∷◌, ◌++◌, length, u32,
}
use trade_kernel.Proc.State.{Kernel, Process}

unfoldable pub IsIn : ℕ → List ℕ → Type 0
IsIn a [] = ⊥
IsIn a (x ∷ xs) = (x ≡ a) ⊎ IsIn a xs

-- From the process `first` the `next` pointers lead through `xs` to NULL, the `prev` pointers lead back to
-- `before`, and `last` is the last process, or `before` if there is none. No process is met twice.
unfoldable pub IsChain : (ℕ → Process) → ℕ → ℕ → List ℕ → ℕ → Type 0
IsChain f before first [] last = (first ≡ 0) × (last ≡ before)
IsChain f before first (x ∷ xs) last =
    (first ≡ x) × (x ≢ 0) × ((f x).prev ≡ before) × (¬ IsIn x xs) × IsChain f x (f x).next xs last

unfoldable pub IsQueue : Kernel → ℕ → List ℕ → Type 0
IsQueue k q xs =
    IsChain k.process_table 0 (k.queues q).head xs (k.queues q).tail
    × ((k.queues q).count ≡ u32 (length xs))

-- The last process is one of the chain.
pub IsChain-last :
    (f : ℕ → Process) (before first x last : ℕ) (xs : List ℕ)
    → IsChain f before first (x ∷ xs) last
    → IsIn last (x ∷ xs)
unfolding IsChain IsIn
IsChain-last f before first x last [] (a, b, c, d, (e, g)) = inl (sym g)
IsChain-last f before first x last (y ∷ ys) (a, b, c, d, rest) =
    inr (IsChain-last f x (f x).next y last ys rest)

-- Writes to processes outside the chain leave it.
pub IsChain-ext :
    (f g : ℕ → Process) (before first last : ℕ) (xs : List ℕ)
    → ((x : ℕ) → IsIn x xs → g x ≡ f x)
    → IsChain f before first xs last
    → IsChain g before first xs last
unfolding IsChain IsIn
IsChain-ext f g before first last [] same c = c
IsChain-ext f g before first last (x ∷ xs) same (a, b, c, d, rest) =
    let e = same x (inl refl) in
    (
      a,
      b,
      ap (λ v. v.prev) e ∙ c,
      d,
      subst (λ n. IsChain g x n xs last) (sym (ap (λ v. v.next) e))
          (IsChain-ext f g x (f x).next last xs (λ y i. same y (inr i)) rest),
    )

IsIn-append : (a p : ℕ) (xs : List ℕ) → IsIn a (xs ++ (p ∷ [])) → IsIn a xs ⊎ (p ≡ a)
unfolding IsIn
IsIn-append a p [] (inl e) = inr e
IsIn-append a p [] (inr i) = absurd i
IsIn-append a p (x ∷ xs) (inl e) = inl (inl e)
IsIn-append a p (x ∷ xs) (inr i) = elim (IsIn-append a p xs i) [
  | inl j ↦ inl (inr j)
  | inr e ↦ inr e
]

-- No process of a chain is NULL.
pub IsChain-nonzero :
    (f : ℕ → Process) (before first last a : ℕ) (xs : List ℕ)
    → IsChain f before first xs last
    → IsIn a xs
    → a ≢ 0
unfolding IsChain IsIn
IsChain-nonzero f before first last a [] c i = absurd i
IsChain-nonzero f before first last a (x ∷ xs) (p, nz, c, d, rest) (inl e) = λ z. nz (e ∙ z)
IsChain-nonzero f before first last a (x ∷ xs) (p, nz, c, d, rest) (inr i) =
    IsChain-nonzero f x (f x).next last a xs rest i

-- A new process after the last one
pub IsChain-append :
    (f g : ℕ → Process) (before first last p : ℕ) (xs : List ℕ)
    → p ≢ 0
    → (¬ IsIn p xs)
    → ((x : ℕ) → IsIn x xs → (g x).prev ≡ (f x).prev)
    → ((x : ℕ) → IsIn x xs → x ≢ last → (g x).next ≡ (f x).next)
    → (IsIn last xs → (g last).next ≡ p)
    → (g p).next ≡ 0
    → (g p).prev ≡ last
    → (y : ℕ) (ys : List ℕ) → xs ≡ y ∷ ys
    → IsChain f before first xs last
    → IsChain g before first (xs ++ (p ∷ [])) p
unfolding IsChain IsIn
IsChain-append f g before first last p [] nz out prevs nexts tail gn gp y ys e c = absurd (cc)
IsChain-append f g before first last p (x ∷ []) nz out prevs nexts tail gn gp y ys e
      (a, b, c, d, (n, l)) =
    let next : (g x).next ≡ p = ap (λ v. (g v).next) (sym l) ∙ tail (inl (sym l)) in
    (
      a,
      b,
      prevs x (inl refl) ∙ c,
      (λ i. elim i [ inl q ↦ out (inl (sym q)) | inr z ↦ z ]),
      (next, nz, gp ∙ l, (λ z. z), (gn, refl)),
    )
IsChain-append f g before first last p (x ∷ (z ∷ zs)) nz out prevs nexts tail gn gp y ys e
      (a, b, c, d, rest) =
    let within = IsChain-last f x (f x).next z last zs rest in
    let ne : x ≢ last = λ q. d (subst (λ v. IsIn v (z ∷ zs)) (sym q) within) in
    let same : (g x).next ≡ (f x).next = nexts x (inl refl) ne in
    (
      a,
      b,
      prevs x (inl refl) ∙ c,
      (λ i. elim (IsIn-append x p (z ∷ zs) i) [ inl j ↦ d j | inr q ↦ out (inl (sym q)) ]),
      subst (λ n. IsChain g x n ((z ∷ zs) ++ (p ∷ [])) p) (sym same)
          (IsChain-append f g x (f x).next last p (z ∷ zs) nz (λ i. out (inr i))
            (λ v i. prevs v (inr i)) (λ v i. nexts v (inr i)) (λ i. tail (inr i)) gn gp z zs refl
            rest),
    )
