-- ===== src/Ipc.antt =====
-- kernel/proc/ipc.c: message queues, semaphores, the ring buffer, the shared pool and the trading messages.
pub mod Ring
pub mod Fifo
pub mod Queues
pub mod Semaphores
pub mod SharedPool
pub mod Trading
