-- ===== src/Tests/Proc.antt =====
-- kernel/proc: two processes in the queue of priority 1, one running.
use trade_kernel.Base.{
  ℕ, ◌+◌, ◌^◌, ◌≤◌, ◌<◌, ◌≡◌, ◌⊎◌, sym, subst, ==→eq, Bool-cases, refl, inl, inr, true, List, [],
  ◌∷◌, ◌++◌, ◌==◌, if◌then◌else◌, arith, length,
}
use trade_kernel.Proc.State.{
  ProcessState, process_ready, process_running, sched_rr, Process, Kernel,
}
use trade_kernel.Proc.Queue.{queue_add_tail, queue_remove_head}
use trade_kernel.Proc.Queue.Links.{IsIn, IsChain, IsQueue}
use trade_kernel.Proc.Queue.Refine.{queue_add_tail-IsQueue, queue_remove_head-IsQueue}
use trade_kernel.Proc.Scheduler.{scheduler_pick_next, scheduler_remove_process}
use trade_kernel.Proc.Scheduler.Pick.{AreQueues, IsTaken, scheduler_pick_next-first}
use trade_kernel.Proc.Scheduler.Removal.{emptied, scheduler_remove_process-empties}

abbrev process : ProcessState → ℕ → ℕ → Process
process state next prev = record {
  pid = 1;
  state = state;
  priority = 1;
  policy = sched_rr;
  cpu_time = 0;
  last_run_time = 0;
  time_slice = 10;
  remaining_slice = 10;
  next = next;
  prev = prev;
  exit_code = 0;
  context_switches = 0;
}

-- Process 2 is before process 3; process 1 runs.
abbrev kernel : Kernel
kernel = record {
  process_table = λ p.
      if p == 2
      then process process_ready 3 0
      else (if p == 3 then process process_ready 0 2 else process process_running 0 0);
  process_table_used = λ i. true;
  queues = λ q.
      if q == 1
      then record { head = 2; tail = 3; count = 2 }
      else record { head = 0; tail = 0; count = 0 };
  current_process = 1;
  idle_process = 9;
  scheduler_enabled = true;
  proc_stats = record { running_processes = 1; blocked_processes = 0; context_switches = 0 };
  next_pid = 4;
}

abbrev ready : List ℕ
ready = 2 ∷ 3 ∷ []

kernel-IsQueue : IsQueue kernel 1 ready
unfolding IsQueue IsChain IsIn
kernel-IsQueue = (
  (
    refl,
    (λ e. omega arith),
    refl,
    (λ i. elim i [ inl e ↦ omega arith | inr z ↦ z ]),
    (refl, (λ e. omega arith), refl, (λ z. z), (refl, refl)),
  ),
  refl,
)

one_out : ¬ IsIn 1 ready
unfolding IsIn
one_out (inl e) = omega arith
one_out (inr (inl e)) = omega arith
one_out (inr (inr e)) = e

queue_add_tail-IsQueue_example : IsQueue (queue_add_tail 1 1 kernel) 1 (ready ++ (1 ∷ []))
queue_add_tail-IsQueue_example =
    queue_add_tail-IsQueue 1 1 ready kernel kernel-IsQueue (λ e. omega arith) one_out

queue_remove_head-IsQueue_example :
    ((queue_remove_head 1 kernel).0 ≡ 2) × IsQueue (queue_remove_head 1 kernel).1 1 (3 ∷ [])
queue_remove_head-IsQueue_example = queue_remove_head-IsQueue 1 2 (3 ∷ []) kernel kernel-IsQueue

abbrev lists : ℕ → List ℕ
lists q = if q == 1 then ready else []

kernel-AreQueues : AreQueues 5 0 lists kernel
unfolding AreQueues IsQueue IsChain
kernel-AreQueues j a b = elim (Bool-cases (j == 1)) [
  | inl e ↦
      subst (λ v. IsQueue kernel v (lists v) × (length (lists v) < 2 ^ 32)) (sym (==→eq j 1 e))
        (kernel-IsQueue, omega arith)
  | inr e ↦ rw e (((refl, refl), refl), omega arith)
]

scheduler_pick_next-first_example :
    IsTaken 5 0 lists (scheduler_pick_next kernel)
    ⊎ (((j : ℕ) → 0 ≤ j → j < 0 + 5 → lists j ≡ []) × (scheduler_pick_next kernel ≡ (9, kernel)))
scheduler_pick_next-first_example = scheduler_pick_next-first lists kernel kernel-AreQueues

-- Blocking the running process 1 loses the processes 2 and 3.
scheduler_remove_process-empties_example :
    (scheduler_remove_process 1 kernel).queues 1 ≡ emptied (kernel.queues 1)
scheduler_remove_process-empties_example =
    scheduler_remove_process-empties 1 kernel (λ e. omega arith) (refl, refl) 1 (omega arith)
