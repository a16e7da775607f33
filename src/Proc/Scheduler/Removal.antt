-- ===== src/Proc/Scheduler/Removal.antt =====
-- kernel/proc/scheduler.c: scheduler_remove_process calls queue_remove on every ready queue, whether the
-- process is in it or not.
use trade_kernel.Base.{
  ℕ, zero, suc, ◌+◌, ◌≤◌, ◌<◌, ◌≡◌, ◌≢◌, ◌∙◌, sym, ap, subst, refl, inl, inr, ◌==◌, ==-refl, ne→==,
  ==→eq, Bool-cases, sub32, arith,
}
use trade_kernel.Proc.State.{Kernel, SchedulerQueue, update_process, update_queue}
use trade_kernel.Proc.Queue.{queue_remove}
use trade_kernel.Proc.Scheduler.{remove_from, scheduler_remove_process}

-- A process that is linked to no other: the only one of its queue, or one that is in no queue
abbrev pub IsUnlinked : ℕ → Kernel → Type 0
IsUnlinked p k = ((k.process_table p).next ≡ 0) × ((k.process_table p).prev ≡ 0)

-- The queue that queue_remove of such a process leaves
abbrev pub emptied : SchedulerQueue → SchedulerQueue
emptied u = record { head = 0; tail = 0; count = sub32 u.count 1 }

remove-IsUnlinked :
    (q p : ℕ) (k : Kernel)
    → p ≢ 0
    → IsUnlinked p k
    → ((queue_remove q p k).queues q ≡ emptied (k.queues q)) × IsUnlinked p (queue_remove q p k)
unfolding queue_remove update_process update_queue
remove-IsUnlinked q p k nz (a, b) =
    rw (ne→== p 0 nz, b, b, a, ==-refl p, ==-refl q) (refl, (refl, refl))

remove_other :
    (q p j : ℕ) (k : Kernel)
    → p ≢ 0
    → IsUnlinked p k
    → j ≢ q
    → (queue_remove q p k).queues j ≡ k.queues j
unfolding queue_remove update_process update_queue
remove_other q p j k nz (a, b) ne = rw (ne→== p 0 nz, b, b, a, ne→== j q ne) refl

remove_from-emptied :
    (n i p j : ℕ) (k : Kernel)
    → p ≢ 0
    → IsUnlinked p k
    → ((i ≤ j) → (j < i + n) → (remove_from n i p k).queues j ≡ emptied (k.queues j))
      × (j < i → (remove_from n i p k).queues j ≡ k.queues j)
unfolding remove_from
remove_from-emptied zero i p j k nz u = ((λ a b. absurd (omega arith)), (λ a. refl))
remove_from-emptied (suc n) i p j k nz u =
    let (here, kept) = remove-IsUnlinked i p k nz u in
    let (inside, below) = remove_from-emptied n (i + 1) p j (queue_remove i p k) nz kept in
    (
      (λ a b. elim (Bool-cases (j == i)) [
        | inl e ↦
            let s : i ≡ j = sym (==→eq j i e) in
            below (omega arith)
            ∙ subst (λ v. (queue_remove i p k).queues v ≡ emptied (k.queues v)) s here
        | inr e ↦
            let ne : j ≢ i = λ z. ground arith in
            inside (omega arith) (omega arith) ∙ ap emptied (remove_other i p j k nz u ne)
      ]),
      (λ a. below (omega arith) ∙ remove_other i p j k nz u (λ z. omega arith)),
    )

-- scheduler_remove_process of a process with no links, such as one that is running, sets the head and
-- the tail of all five ready queues to NULL and takes one off their counts, modulo 2 ^ 32: the processes
-- that were ready are lost.
pub scheduler_remove_process-empties :
    (p : ℕ) (k : Kernel)
    → p ≢ 0
    → IsUnlinked p k
    → (j : ℕ) → j < 5
    → (scheduler_remove_process p k).queues j ≡ emptied (k.queues j)
unfolding scheduler_remove_process
scheduler_remove_process-empties p k nz u j h =
    rw (ne→== p 0 nz) ((remove_from-emptied 5 0 p j k nz u).0 (omega arith) (omega arith))
