-- ===== src/Proc.antt =====
-- kernel/proc: the process table, the scheduler's queues and the scheduler.
pub mod State
pub mod Queue
pub mod Scheduler
pub mod Lifecycle
