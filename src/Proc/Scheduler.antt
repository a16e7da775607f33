-- ===== src/Proc/Scheduler.antt =====
-- kernel/proc/scheduler.c, and the part of process.c that changes a process's state: who runs next.
-- context_switch only changes the registers; get_current_time_ms is the argument `now`.
pub mod Pick
pub mod Removal
use trade_kernel.Base.{
  ℕ, zero, suc, ◌+◌, ◌<◌, Bool, true, false, not, ◌||◌, ◌&&◌, Option, none, some, ltb, leb, ◌==◌,
  if◌then◌else◌, add32, sub32, find_from,
}
use trade_kernel.Proc.State.{
  Kernel, Process, ProcessState, process_new, process_ready, process_running, process_blocked,
  process_sleeping, process_zombie, process_terminated, SchedPolicy, sched_fifo, sched_rr,
  sched_normal, SchedulerQueue, ProcessStats, update_process, update_queue, blocked_queue,
  terminated_queue,
}
use trade_kernel.Proc.Queue.{queue_add_tail, queue_remove_head, queue_remove}

-- The number of a state, for the comparisons of the code
abbrev pub state_code : ProcessState → ℕ
state_code process_new = 0
state_code process_ready = 1
state_code process_running = 2
state_code process_blocked = 3
state_code process_sleeping = 4
state_code process_zombie = 5
state_code process_terminated = 6

abbrev pub is_rr : SchedPolicy → Bool
is_rr sched_fifo = false
is_rr sched_rr = true
is_rr sched_normal = false

abbrev pub state_of : ℕ → Kernel → ProcessState
state_of p k = (k.process_table p).state

abbrev pub has_state : ℕ → ProcessState → Kernel → Bool
has_state p st k = state_code (state_of p k) == state_code st

-- The loop over the priorities of scheduler_pick_next
unfoldable pub pick_from : ℕ → ℕ → Kernel → ℕ × Kernel
pick_from zero priority k = (k.idle_process, k)
pick_from (suc n) priority k =
    let rest = pick_from n (priority + 1) k in
    if ltb 0 (k.queues priority).count
    then (if (queue_remove_head priority k).0 == 0 then rest else queue_remove_head priority k)
    else rest

unfoldable pub scheduler_pick_next : Kernel → ℕ × Kernel
scheduler_pick_next k = pick_from 5 0 k

unfoldable pub scheduler_add_process : ℕ → Kernel → Kernel
scheduler_add_process p k =
    if p == 0 || not (has_state p process_ready k)
    then k
    else let a =
        if is_rr (k.process_table p).policy
        then update_process p (λ x. record x { remaining_slice = x.time_slice }) k
        else k in
      queue_add_tail (k.process_table p).priority p a

-- The loop over the five ready queues
unfoldable pub remove_from : ℕ → ℕ → ℕ → Kernel → Kernel
remove_from zero i p k = k
remove_from (suc n) i p k = remove_from n (i + 1) p (queue_remove i p k)

unfoldable pub scheduler_remove_process : ℕ → Kernel → Kernel
scheduler_remove_process p k = if p == 0 then k else remove_from 5 0 p k

-- The two `switch` statements of process_set_state
unfoldable pub leave_state : ProcessState → ProcessStats → ProcessStats
leave_state process_new m = m
leave_state process_ready m = m
leave_state process_running m = record m { running_processes = sub32 m.running_processes 1 }
leave_state process_blocked m = record m { blocked_processes = sub32 m.blocked_processes 1 }
leave_state process_sleeping m = m
leave_state process_zombie m = m
leave_state process_terminated m = m

unfoldable pub enter_state : ProcessState → ℕ → Kernel → Kernel
enter_state process_new p k = k
enter_state process_ready p k = scheduler_add_process p k
enter_state process_running p k = record k {
  proc_stats = record k.proc_stats { running_processes = add32 k.proc_stats.running_processes 1 };
}
enter_state process_blocked p k = record k {
  proc_stats = record k.proc_stats { blocked_processes = add32 k.proc_stats.blocked_processes 1 };
}
enter_state process_sleeping p k = k
enter_state process_zombie p k = k
enter_state process_terminated p k = queue_add_tail terminated_queue p k

unfoldable pub process_set_state : ℕ → ProcessState → Kernel → Kernel
process_set_state p st k =
    if p == 0 || has_state p st k
    then k
    else let a = update_process p (λ x. record x { state = st }) k in
      enter_state st p (record a { proc_stats = leave_state (state_of p k) a.proc_stats })

-- The end of scheduler_yield and scheduler_preempt
unfoldable pub switch_to : ℕ → ℕ → ℕ → Kernel → Kernel
switch_to now old p k =
    let a = process_set_state p process_running k in
    let b =
      update_process p (λ x. record x { last_run_time = now }) (record a { current_process = p }) in
    let c = record b {
      proc_stats = record b.proc_stats { context_switches = add32 b.proc_stats.context_switches 1 };
    } in
    update_process p (λ x. record x { context_switches = add32 x.context_switches 1 })
      (update_process old (λ x. record x { context_switches = add32 x.context_switches 1 }) c)

-- The current process goes back to its queue if it still runs, and the next one is picked.
abbrev pub requeue_and_pick : Kernel → ℕ × Kernel
requeue_and_pick k =
    let old = k.current_process in
    scheduler_pick_next
      (if has_state old process_running k then process_set_state old process_ready k else k)

unfoldable pub scheduler_yield : ℕ → Kernel → Kernel
scheduler_yield now k =
    if not k.scheduler_enabled || k.current_process == 0
    then k
    else let (p, a) = requeue_and_pick k in
      if p == 0 || p == k.current_process then a else switch_to now k.current_process p a

unfoldable pub scheduler_preempt : ℕ → Kernel → Kernel
scheduler_preempt now k =
    if not k.scheduler_enabled || k.current_process == 0
    then k
    else let (p, a) = requeue_and_pick k in
      if p == 0 then a else switch_to now k.current_process p a

-- Whether a queue before `priority` has a process
abbrev pub is_outranked : ℕ → Kernel → Bool
is_outranked priority k = is_found (find_from (λ i. ltb 0 (k.queues i).count) priority 0)
  where
    is_found : Option ℕ → Bool
    is_found none = false
    is_found (some i) = true

unfoldable pub should_preempt : Process → Kernel → Bool
should_preempt c k = by c.policy
  where
    by : SchedPolicy → Bool
    by sched_fifo = is_outranked c.priority k
    by sched_rr = c.remaining_slice == 0 || is_outranked c.priority k
    by sched_normal = false

-- cpu_time and remaining_slice of the current process
unfoldable pub charge : Process → Process
charge x = record x {
  cpu_time = add32 x.cpu_time 1;
  remaining_slice =
      if is_rr x.policy && ltb 0 x.remaining_slice
      then sub32 x.remaining_slice 1
      else x.remaining_slice;
}

unfoldable pub scheduler_tick : ℕ → Kernel → Kernel
scheduler_tick now k =
    if not k.scheduler_enabled || k.current_process == 0
    then k
    else let a = update_process k.current_process charge k in
      if should_preempt (a.process_table k.current_process) a then scheduler_preempt now a else a

unfoldable pub process_block : ℕ → ℕ → Kernel → Kernel
process_block now p k =
    if p == 0
    then k
    else let a = process_set_state p process_blocked (scheduler_remove_process p k) in
      let b = queue_add_tail blocked_queue p a in
      if p == b.current_process then scheduler_yield now b else b

unfoldable pub process_unblock : ℕ → Kernel → Kernel
process_unblock p k =
    if p == 0 || not (has_state p process_blocked k)
    then k
    else process_set_state p process_ready (queue_remove blocked_queue p k)

unfoldable pub process_set_priority : ℕ → ℕ → Kernel → Kernel
process_set_priority p priority k =
    if p == 0
    then k
    else let a = if has_state p process_ready k then scheduler_remove_process p k else k in
      let b = update_process p (λ x. record x { priority = priority }) a in
      if has_state p process_ready b then scheduler_add_process p b else b

unfoldable pub process_exit : ℕ → ℕ → ℕ → Kernel → Kernel
process_exit now p exit_code k =
    if p == 0
    then k
    else let a = update_process p (λ x. record x { exit_code = exit_code }) k in
      let b = process_set_state p process_terminated a in
      if p == b.current_process then scheduler_yield now b else b

-- The process with a pid, NULL if there is none
unfoldable pub process_find_by_pid : ℕ → Kernel → ℕ
process_find_by_pid pid k =
    pointer (find_from (λ i. k.process_table_used i && (k.process_table (i + 1)).pid == pid) 256 0)
  where
    pointer : Option ℕ → ℕ
    pointer none = 0
    pointer (some i) = i + 1

-- The exit code is `-signal`; true for the result 0, false for -1.
unfoldable pub process_kill : ℕ → ℕ → ℕ → Kernel → Bool × Kernel
process_kill now pid signal k =
    let p = process_find_by_pid pid k in
    if p == 0 then (false, k) else (true, process_exit now p (sub32 0 signal) k)

unfoldable pub process_get_next_pid : Kernel → ℕ × Kernel
process_get_next_pid k =
    let n = add32 k.next_pid 1 in (k.next_pid, record k { next_pid = if leb 256 n then 1 else n })
