-- ===== src/Proc/Lifecycle.antt =====
-- kernel/proc/process.c and syscalls.c: the creation of a process, fork, and the table of the system calls. The fields of
-- process_t that the scheduler does not touch are kept beside the kernel's state.
pub mod Creation
pub mod Dispatch
use trade_kernel.Base.{
  ℕ, zero, suc, ◌+◌, ◌-◌, ◌*◌, Bool, true, false, not, ◌&&◌, ◌||◌, List, [], ◌∷◌, ◌++◌, Option,
  none, some, if◌then◌else◌, ltb, leb, ◌==◌, take, find_from, get_or, set, replicate, add32, sub32,
  minus_one32,
}
use trade_kernel.Proc.State.{
  Kernel, Process, ProcessState, process_new, SchedPolicy, sched_rr, update_process,
}
use trade_kernel.Proc.Scheduler.{process_get_next_pid, process_exit, process_kill, scheduler_yield}

abbrev pub max_processes : ℕ
max_processes = 256

-- The other fields of process_t; a pointer to a process is its number, NULL is 0. Of the context, the return value
-- is kept.
pub record Kin : Type 0 where
  pub ppid : ℕ
  pub name : List ℕ
  pub eax : ℕ
  pub stack_base : ℕ
  pub creation_time : ℕ
  pub parent : ℕ
  pub children : ℕ
  pub sibling_next : ℕ
  pub sibling_prev : ℕ

pub record Processes : Type 0 where
  pub kernel : Kernel
  pub kin : ℕ → Kin
  pub total_processes : ℕ
  pub active_processes : ℕ

unfoldable pub update_kin : ℕ → (Kin → Kin) → (ℕ → Kin) → ℕ → Kin
update_kin p f kin x = if x == p then f (kin p) else kin x

-- The process as process_create sets it up
abbrev pub new_process : ℕ → ℕ → Process
new_process pid priority = record {
  pid = pid;
  state = process_new;
  priority = priority;
  policy = sched_rr;
  cpu_time = 0;
  last_run_time = 0;
  time_slice = 10;
  remaining_slice = 10;
  next = 0;
  prev = 0;
  exit_code = 0;
  context_switches = 0;
}

-- Without the links to its relatives
abbrev pub new_kin : List ℕ → ℕ → ℕ → ℕ → Kin
new_kin name ppid stack now = record {
  ppid = ppid;
  name = take 31 name;
  eax = 0;
  stack_base = stack;
  creation_time = now;
  parent = 0;
  children = 0;
  sibling_next = 0;
  sibling_prev = 0;
}

-- The new process `p` becomes the first child of `parent`, if there is one.
unfoldable pub adopt : ℕ → ℕ → (ℕ → Kin) → ℕ → Kin
adopt parent p kin =
    let first = (kin parent).children in
    let born = update_kin p (λ x. record x { parent = parent }) kin in
    let linked =
      if first == 0
      then born
      else update_kin first (λ x. record x { sibling_prev = p })
          (update_kin p (λ x. record x { sibling_next = first }) born) in
    if parent == 0 then kin else update_kin parent (λ x. record x { children = p }) linked

abbrev pub mark : ℕ → Bool → Kernel → Kernel
mark slot used k = record k {
  process_table_used = λ x. if x == slot then used else k.process_table_used x;
}

-- What process_create does in a free slot; `stack` is what kmalloc returned.
unfoldable pub create_in_slot : ℕ → List ℕ → ℕ → ℕ → ℕ → Processes → ℕ × Processes
create_in_slot slot name priority stack now s =
    let p = slot + 1 in
    let current = s.kernel.current_process in
    let (pid, k) = process_get_next_pid s.kernel in
    let ppid = if current == 0 then 0 else (s.kernel.process_table current).pid in
    let started = update_process p (λ x. new_process pid priority) k in
    let kin = update_kin p (λ x. new_kin name ppid stack now) s.kin in
    if stack == 0 then (0, record s { kernel = mark slot false started; kin = kin }) else (
      p,
      record s {
        kernel = mark slot true started;
        kin = adopt current p kin;
        total_processes = add32 s.total_processes 1;
        active_processes = add32 s.active_processes 1;
      },
    )

unfoldable pub process_create : List ℕ → ℕ → ℕ → ℕ → Processes → ℕ × Processes
process_create name priority stack now s =
    elim (find_from (λ i. not (s.kernel.process_table_used i)) max_processes 0) [
      | none ↦ (0, s)
      | some slot ↦ create_in_slot slot name priority stack now s
    ]

-- "child"
abbrev pub child_name : List ℕ
child_name = 99 ∷ 104 ∷ 105 ∷ 108 ∷ 100 ∷ []

-- The two return values, and the link to the parent
unfoldable pub fork_into : ℕ → ℕ → Processes → ℕ × Processes
fork_into parent child s =
    let pid = (s.kernel.process_table child).pid in
    let parent_pid = (s.kernel.process_table parent).pid in
    let kin =
      update_kin child (λ x. record x { ppid = parent_pid; parent = parent })
        (update_kin parent (λ x. record x { eax = pid })
          (update_kin child (λ x. record x { eax = 0 }) s.kin)) in
    if child == 0 then (minus_one32, s) else (pid, record s { kin = kin })

unfoldable pub sys_fork : ℕ → ℕ → Processes → ℕ × Processes
sys_fork stack now s =
    let current = s.kernel.current_process in
    let (child, t) =
      process_create child_name (s.kernel.process_table current).priority stack now s in
    if current == 0 then (minus_one32, s) else fork_into current child t

unfoldable pub sys_exit : ℕ → ℕ → Processes → ℕ × Processes
sys_exit now exit_code s =
    let current = s.kernel.current_process in
    if current == 0 then (minus_one32, s) else (
      0,
      record s { kernel = scheduler_yield now (process_exit now current exit_code s.kernel) },
    )

unfoldable pub sys_kill : ℕ → ℕ → ℕ → Processes → ℕ × Processes
sys_kill now pid signal s =
    let (found, k) = process_kill now pid signal s.kernel in
    (if found then 0 else minus_one32, record s { kernel = k })

unfoldable pub sys_getpid : Processes → ℕ
sys_getpid s =
    let current = s.kernel.current_process in
    if current == 0 then 0 else (s.kernel.process_table current).pid

unfoldable pub sys_yield : ℕ → Processes → ℕ × Processes
sys_yield now s = (0, record s { kernel = scheduler_yield now s.kernel })

-- The handlers that syscalls_init registers
pub data Handler : Type 0 where
  fork exit wait kill getpid yield : Handler

-- syscall_table and num_syscalls
pub record SyscallTable : Type 0 where
  pub handlers : List (Option Handler)
  pub num_syscalls : ℕ

abbrev pub max_syscalls : ℕ
max_syscalls = 32

unfoldable pub register_syscall : ℕ → Handler → SyscallTable → SyscallTable
register_syscall num handler t =
    if ltb num max_syscalls
    then record {
      handlers = set t.handlers num (some handler);
      num_syscalls = if leb t.num_syscalls num then num + 1 else t.num_syscalls;
    }
    else t

unfoldable pub syscalls_init : SyscallTable → SyscallTable
syscalls_init t = register_syscall 8 yield (
    register_syscall 5 getpid (
      register_syscall 4 kill (
        register_syscall 3 wait (
          register_syscall 2 exit
            (register_syscall 0 fork (record t { handlers = replicate max_syscalls none }))))))

-- The handler that syscall_handler calls; `none` is the answer -1.
unfoldable pub handler_of : ℕ → SyscallTable → Option Handler
handler_of num t = if leb t.num_syscalls num then none else get_or t.handlers num none
