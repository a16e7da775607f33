-- ===== src/Proc/State.antt =====
-- kernel/proc/process.h and the globals of process.c. A process is named by the address of its entry in
-- process_table, NULL is 0: the entry `i` is the process `i + 1`. The queues are numbered: 0 to 4 are
-- ready_queues, 5 is blocked_queue and 6 is terminated_queue.
use trade_kernel.Base.{ℕ, Bool, ◌==◌, if◌then◌else◌}

-- process_state_t
pub data ProcessState : Type 0 where
  process_new process_ready process_running process_blocked process_sleeping process_zombie
        process_terminated :
      ProcessState

-- sched_policy_t
pub data SchedPolicy : Type 0 where
  sched_fifo sched_rr sched_normal : SchedPolicy

-- process_t, the fields that the scheduler reads or writes; a priority is the number of its queue
pub record Process : Type 0 where
  pub pid : ℕ
  pub state : ProcessState
  pub priority : ℕ
  pub policy : SchedPolicy
  pub cpu_time : ℕ
  pub last_run_time : ℕ
  pub time_slice : ℕ
  pub remaining_slice : ℕ
  pub next : ℕ
  pub prev : ℕ
  pub exit_code : ℕ
  pub context_switches : ℕ

-- scheduler_queue_t
pub record SchedulerQueue : Type 0 where
  pub head : ℕ
  pub tail : ℕ
  pub count : ℕ

-- process_stats_t, the fields that the scheduler writes
pub record ProcessStats : Type 0 where
  pub running_processes : ℕ
  pub blocked_processes : ℕ
  pub context_switches : ℕ

pub record Kernel : Type 0 where
  pub process_table : ℕ → Process
  pub process_table_used : ℕ → Bool
  pub queues : ℕ → SchedulerQueue
  pub current_process : ℕ
  pub idle_process : ℕ
  pub scheduler_enabled : Bool
  pub proc_stats : ProcessStats
  pub next_pid : ℕ

abbrev pub blocked_queue : ℕ
blocked_queue = 5

abbrev pub terminated_queue : ℕ
terminated_queue = 6

-- A write to a process, and to a queue
unfoldable pub update_process : ℕ → (Process → Process) → Kernel → Kernel
update_process p f k = record k {
  process_table = λ x. if x == p then f (k.process_table p) else k.process_table x;
}

unfoldable pub update_queue : ℕ → (SchedulerQueue → SchedulerQueue) → Kernel → Kernel
update_queue q f k = record k { queues = λ x. if x == q then f (k.queues q) else k.queues x }
