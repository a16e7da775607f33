-- ===== src/Proc/Lifecycle/Creation.antt =====
-- kernel/proc/process.c and syscalls.c: the process that process_create and sys_fork make.
use trade_kernel.Base.{
  ℕ, ◌+◌, ◌<◌, ◌≡◌, ◌≢◌, refl, inl, inr, true, false, not, List, some, ==-refl, ne→==, Option-cases,
  find_from, find_from_sound, find_from-none, arith,
}
use trade_kernel.Proc.State.{update_process}
use trade_kernel.Proc.Scheduler.{process_get_next_pid}
use trade_kernel.Proc.Lifecycle.{
  Processes, new_process, process_create, create_in_slot, max_processes,
}

-- What the creation of the process `i + 1` did
pub record IsCreated (i pid priority : ℕ) (s t : Processes) : Type 0 where
  pub low : i < max_processes
  pub was_free : s.kernel.process_table_used i ≡ false
  pub now_used : t.kernel.process_table_used i ≡ true
  pub others_used : (j : ℕ) → j ≢ i → t.kernel.process_table_used j ≡ s.kernel.process_table_used j
  pub process : t.kernel.process_table (i + 1) ≡ new_process pid priority
  pub others : (p : ℕ) → p ≢ i + 1 → t.kernel.process_table p ≡ s.kernel.process_table p
  pub queues : (q : ℕ) → t.kernel.queues q ≡ s.kernel.queues q

create_in_slot-IsCreated :
    (i : ℕ) (name : List ℕ) (priority stack now : ℕ) (s : Processes)
    → i < max_processes
    → s.kernel.process_table_used i ≡ false
    → stack ≢ 0
    → let (p, t) = create_in_slot i name priority stack now s in
      (p ≡ i + 1) × IsCreated i s.kernel.next_pid priority s t
unfolding create_in_slot update_process process_get_next_pid
create_in_slot-IsCreated i name priority stack now s l f nz = rw (ne→== stack 0 nz) (
  refl,
  record {
    low = l;
    was_free = f;
    now_used = rw (==-refl i) refl;
    others_used = λ j ne. rw (ne→== j i ne) refl;
    process = rw (==-refl (i + 1)) refl;
    others = λ p ne. rw (ne→== p (i + 1) ne) refl;
    queues = λ q. refl;
  },
)

free_slot :
    (s : Processes) (j : ℕ)
    → j < max_processes
    → s.kernel.process_table_used j ≡ false
    → (i : ℕ) × (find_from (λ k. not (s.kernel.process_table_used k)) max_processes 0 ≡ some i)
      × (i < max_processes)
      × (s.kernel.process_table_used i ≡ false)
free_slot s j l f =
    elim (Option-cases (find_from (λ k. not (s.kernel.process_table_used k)) max_processes 0)) [
      | inl e ↦
          let n =
            find_from-none (λ k. not (s.kernel.process_table_used k)) max_processes 0 j e
              (omega arith) (omega arith) in
          absurd (ground arith)
      | inr (i, e) ↦
          let (p, a, b) =
            find_from_sound (λ k. not (s.kernel.process_table_used k)) max_processes 0 e in
          (i, e, omega arith, ground arith)
    ]

-- While a slot of the table is free and there is memory for the stack, process_create takes a slot that was not in use and
-- sets the process in it up as NEW with the next pid; no other process, no other slot and no queue changes.
pub process_create-IsCreated :
    (name : List ℕ) (priority stack now : ℕ) (s : Processes) (j : ℕ)
    → j < max_processes
    → s.kernel.process_table_used j ≡ false
    → stack ≢ 0
    → let (p, t) = process_create name priority stack now s in
      (i : ℕ) × (p ≡ i + 1) × IsCreated i s.kernel.next_pid priority s t
unfolding process_create
process_create-IsCreated name priority stack now s j l f nz =
    let (i, e, low, free) = free_slot s j l f in
    let (q, made) = create_in_slot-IsCreated i name priority stack now s low free nz in
    rw (e, process_create) (i, q, made)
