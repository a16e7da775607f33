-- ===== src/Proc/Queue/Refine.antt =====
-- kernel/proc/scheduler.c: the queue operations as operations on the list of processes.
use trade_kernel.Base.{
  ℕ, ◌≡◌, ◌≢◌, sym, ap, subst, refl, inl, inr, List, [], ◌∷◌, ◌++◌, ◌==◌, ==-refl, ne→==,
  Bool-cases, ==→eq, length-append, arith, add32, sub32,
}
use trade_kernel.Proc.State.{Kernel, update_process, update_queue}
use trade_kernel.Proc.Queue.{queue_add_tail, queue_remove_head}
use trade_kernel.Proc.Queue.Links.{
  IsIn, IsChain, IsQueue, IsChain-last, IsChain-ext, IsChain-append, IsChain-nonzero,
}

-- What the two pointer writes of queue_add_tail leave for each process and for the queue
add_tail_first :
    (q p : ℕ) (k : Kernel)
    → p ≢ 0
    → (k.queues q).tail ≡ 0
    → let t = queue_add_tail q p k in
      ((t.process_table p).next ≡ 0)
      × ((t.process_table p).prev ≡ 0)
      × (t.queues q ≡ record { head = p; tail = p; count = add32 (k.queues q).count 1 })
unfolding queue_add_tail update_process update_queue
add_tail_first q p k nz e = rw (ne→== p 0 nz, e, ==-refl p, ==-refl q) (refl, refl, refl)

add_tail_next :
    (q p : ℕ) (k : Kernel)
    → p ≢ 0
    → (k.queues q).tail ≢ 0
    → p ≢ (k.queues q).tail
    → let t = queue_add_tail q p k in
      ((t.process_table p).next ≡ 0)
      × ((t.process_table p).prev ≡ (k.queues q).tail)
      × ((t.process_table (k.queues q).tail).next ≡ p)
      × (t.queues q
          ≡ record { head = (k.queues q).head; tail = p; count = add32 (k.queues q).count 1 })
      × ((x : ℕ) → x ≢ p → (t.process_table x).prev ≡ (k.process_table x).prev)
      × ((x : ℕ)
          → x ≢ p
          → x ≢ (k.queues q).tail
          → (t.process_table x).next ≡ (k.process_table x).next)
unfolding queue_add_tail update_process update_queue
add_tail_next q p k nz nt ne = let (a, b, c, d) = here in (a, b, c, d, prevs, nexts)
  where
    here :
        let t = queue_add_tail q p k in
        ((t.process_table p).next ≡ 0)
        × ((t.process_table p).prev ≡ (k.queues q).tail)
        × ((t.process_table (k.queues q).tail).next ≡ p)
        × (t.queues q
            ≡ record { head = (k.queues q).head; tail = p; count = add32 (k.queues q).count 1 })
    here =
        rw
          (
            ne→== p 0 nz,
            ne→== (k.queues q).tail 0 nt,
            ==-refl p,
            ==-refl q,
            ne→== p (k.queues q).tail ne,
            ==-refl (k.queues q).tail,
          )
          (refl, refl, refl, refl)

    prevs :
        (x : ℕ) → x ≢ p → ((queue_add_tail q p k).process_table x).prev ≡ (k.process_table x).prev
    prevs x np = elim (Bool-cases (x == (k.queues q).tail)) [
      | inl e ↦
          rw
            (
              queue_add_tail,
              ne→== p 0 nz,
              ne→== (k.queues q).tail 0 nt,
              e,
              ne→== (k.queues q).tail p (λ z. ne (sym z)),
            )
            (ap (λ v. (k.process_table v).prev) (sym (==→eq x (k.queues q).tail e)))
      | inr e ↦
          rw (queue_add_tail, ne→== p 0 nz, ne→== (k.queues q).tail 0 nt, e, ne→== x p np) refl
    ]

    nexts :
        (x : ℕ)
        → x ≢ p
        → x ≢ (k.queues q).tail
        → ((queue_add_tail q p k).process_table x).next ≡ (k.process_table x).next
    nexts x np nq =
        rw
          (
            queue_add_tail,
            ne→== p 0 nz,
            ne→== (k.queues q).tail 0 nt,
            ne→== x (k.queues q).tail nq,
            ne→== x p np,
          )
          refl

-- queue_add_tail of a process that is not in the queue puts it last.
pub queue_add_tail-IsQueue :
    (q p : ℕ) (xs : List ℕ) (k : Kernel)
    → IsQueue k q xs
    → p ≢ 0
    → (¬ IsIn p xs)
    → IsQueue (queue_add_tail q p k) q (xs ++ (p ∷ []))
unfolding IsQueue IsChain IsIn
queue_add_tail-IsQueue q p [] k ((h, l), n) nz out =
    let (gn, gp, shape) = add_tail_first q p k nz l in
    rw shape ((refl, nz, gp, (λ z. z), (gn, refl)), omega arith)
queue_add_tail-IsQueue q p (y ∷ ys) k (c, n) nz out =
    let within = IsChain-last k.process_table 0 (k.queues q).head y (k.queues q).tail ys c in
    let nt =
      IsChain-nonzero k.process_table 0 (k.queues q).head (k.queues q).tail (k.queues q).tail
        (y ∷ ys) c within in
    let ne : p ≢ (k.queues q).tail = λ e. out (subst (λ v. IsIn v (y ∷ ys)) (sym e) within) in
    let (gn, gp, tn, shape, prevs, nexts) = add_tail_next q p k nz nt ne in
    let apart : (x : ℕ) → IsIn x (y ∷ ys) → x ≢ p =
      λ x i e. out (subst (λ v. IsIn v (y ∷ ys)) e i) in
    let chain =
      IsChain-append k.process_table (queue_add_tail q p k).process_table 0 (k.queues q).head
        (k.queues q).tail p (y ∷ ys) nz out (λ x i. prevs x (apart x i))
        (λ x i. nexts x (apart x i)) (λ _. tn) gn gp y ys refl c in
    rw shape (chain, omega (arith, length-append (y ∷ ys) (p ∷ [])))

-- What queue_remove_head leaves, with one process in the queue and with more
remove_head_last :
    (q p : ℕ) (k : Kernel)
    → (k.queues q).head ≡ p
    → p ≢ 0
    → (k.process_table p).next ≡ 0
    → let (r, t) = queue_remove_head q k in
      (r ≡ p) × (t.queues q ≡ record { head = 0; tail = 0; count = sub32 (k.queues q).count 1 })
unfolding queue_remove_head update_process update_queue
remove_head_last q p k e nz n = rw (e, n, ne→== p 0 nz, ==-refl q) (refl, refl)

remove_head_more :
    (q p h : ℕ) (k : Kernel)
    → (k.queues q).head ≡ p
    → p ≢ 0
    → (k.process_table p).next ≡ h
    → h ≢ 0
    → h ≢ p
    → let (r, t) = queue_remove_head q k in
      (r ≡ p)
      × (t.queues q
          ≡ record { head = h; tail = (k.queues q).tail; count = sub32 (k.queues q).count 1 })
      × ((t.process_table h).prev ≡ 0)
      × ((t.process_table h).next ≡ (k.process_table h).next)
unfolding queue_remove_head update_process update_queue
remove_head_more q p h k e nz n nh ne =
    rw (e, n, ne→== p 0 nz, ne→== h 0 nh, ==-refl q, ne→== h p ne, ==-refl h)
      (refl, refl, refl, refl)

remove_head_others :
    (q p h x : ℕ) (k : Kernel)
    → (k.queues q).head ≡ p
    → p ≢ 0
    → (k.process_table p).next ≡ h
    → h ≢ 0
    → x ≢ p
    → x ≢ h
    → (queue_remove_head q k).1.process_table x ≡ k.process_table x
unfolding queue_remove_head update_process update_queue
remove_head_others q p h x k e nz n nh a b =
    rw (e, n, ne→== p 0 nz, ne→== h 0 nh, ne→== x p a, ne→== x h b) refl

-- queue_remove_head of a queue that is not empty returns its first process and leaves the rest.
pub queue_remove_head-IsQueue :
    (q x : ℕ) (xs : List ℕ) (k : Kernel)
    → IsQueue k q (x ∷ xs)
    → ((queue_remove_head q k).0 ≡ x) × IsQueue (queue_remove_head q k).1 q xs
unfolding IsQueue IsChain IsIn
queue_remove_head-IsQueue q x [] k ((a, b, c, d, (e, f)), n) =
    let (r, shape) = remove_head_last q x k a b e in (r, rw shape ((refl, refl), omega arith))
queue_remove_head-IsQueue q x (y ∷ ys) k ((a, b, c, d, rest), n) =
    let (e, ny, f, g, more) = rest in
    let apart : y ≢ x = λ z. d (inl z) in
    let (r, shape, prev, next) = remove_head_more q x y k a b e ny apart in
    let t = (queue_remove_head q k).1 in
    let same : (v : ℕ) → IsIn v ys → t.process_table v ≡ k.process_table v = λ v i.
      remove_head_others q x y v k a b e ny (λ z. d (inr (subst (λ w. IsIn w ys) z i)))
        (λ z. g (subst (λ w. IsIn w ys) z i)) in
    let tail : IsChain t.process_table y (t.process_table y).next ys (k.queues q).tail =
      subst (λ w. IsChain t.process_table y w ys (k.queues q).tail) (sym next)
        (IsChain-ext k.process_table t.process_table y (k.process_table y).next (k.queues q).tail ys
          same more) in
    (r, rw shape ((refl, ny, prev, g, tail), omega arith))
