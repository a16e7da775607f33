-- ===== src/Proc/Queue.antt =====
-- kernel/proc/scheduler.c: the queues, doubly linked through the processes themselves.
pub mod Links
pub mod Refine
use trade_kernel.Base.{ℕ, ◌||◌, ◌==◌, if◌then◌else◌, add32, sub32}
use trade_kernel.Proc.State.{Kernel, Process, SchedulerQueue, update_process, update_queue}

unfoldable pub queue_init : ℕ → Kernel → Kernel
queue_init q k = update_queue q (λ u. record { head = 0; tail = 0; count = 0 }) k

-- An assignment through a pointer that is tested first, with what is done when it is NULL
abbrev pub relink :
    ℕ → (Process → Process) → ℕ → (SchedulerQueue → SchedulerQueue) → Kernel → Kernel
relink p f q g k = if p == 0 then update_queue q g k else update_process p f k

unfoldable pub queue_add_tail : ℕ → ℕ → Kernel → Kernel
queue_add_tail q p k =
    if p == 0
    then k
    else let t = (k.queues q).tail in
      let a = update_process p (λ x. record x { next = 0; prev = t }) k in
      let b = relink t (λ x. record x { next = p }) q (λ u. record u { head = p }) a in
      update_queue q (λ u. record u { tail = p; count = add32 u.count 1 }) b

unfoldable pub queue_add_head : ℕ → ℕ → Kernel → Kernel
queue_add_head q p k =
    if p == 0
    then k
    else let h = (k.queues q).head in
      let a = update_process p (λ x. record x { prev = 0; next = h }) k in
      let b = relink h (λ x. record x { prev = p }) q (λ u. record u { tail = p }) a in
      update_queue q (λ u. record u { head = p; count = add32 u.count 1 }) b

-- The first component is the process, NULL for an empty queue.
unfoldable pub queue_remove_head : ℕ → Kernel → ℕ × Kernel
queue_remove_head q k =
    let p = (k.queues q).head in
    if p == 0
    then (0, k)
    else let h = (k.process_table p).next in
      let a = update_queue q (λ u. record u { head = h }) k in
      let b = relink h (λ x. record x { prev = 0 }) q (λ u. record u { tail = 0 }) a in
      let c = update_process p (λ x. record x { next = 0; prev = 0 }) b in
      (p, update_queue q (λ u. record u { count = sub32 u.count 1 }) c)

unfoldable pub queue_remove : ℕ → ℕ → Kernel → Kernel
queue_remove q p k =
    if p == 0
    then k
    else let n = (k.process_table p).next in
      let a =
        relink (k.process_table p).prev (λ x. record x { next = n }) q (λ u. record u { head = n })
          k in
      let v = (a.process_table p).prev in
      let b =
        relink (a.process_table p).next (λ x. record x { prev = v }) q (λ u. record u { tail = v })
          a in
      let c = update_process p (λ x. record x { next = 0; prev = 0 }) b in
      update_queue q (λ u. record u { count = sub32 u.count 1 }) c
