-- ===== src/Tests/Lifecycle.antt =====
-- kernel/proc: a fork of process 1 with the other slots free.
use trade_kernel.Base.{true, [], ◌==◌}
use trade_kernel.Proc.State.{Kernel}
use trade_kernel.Proc.Lifecycle.{Processes, new_process, new_kin}

abbrev kernel : Kernel
kernel = record {
  process_table = λ p. new_process 1 2;
  process_table_used = λ i. i == 0;
  queues = λ q. record { head = 0; tail = 0; count = 0 };
  current_process = 1;
  idle_process = 9;
  scheduler_enabled = true;
  proc_stats = record { running_processes = 1; blocked_processes = 0; context_switches = 0 };
  next_pid = 2;
}

abbrev processes : Processes
processes = record {
  kernel = kernel;
  kin = λ p. new_kin [] 0 4096 0;
  total_processes = 1;
  active_processes = 1;
}
