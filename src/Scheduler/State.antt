-- ===== src/Scheduler/State.antt =====
-- The state of kernel/kernel/scheduler.c. A task is its index in `tasks`; a task list is the list of
-- the indices on it, head first, which its `head`, `tail`, `count` and the tasks' `list_prev` and
-- `list_next` hold. What the scheduler asks of the processor is kept in the state: the
-- interrupts it sent to other processors, the kernel stack and the address space it selected.
use dfos.Base.{
  ℕ, Bool, false, ◌||◌, not, List, [], ◌∷◌, Option, none, some, leb, ◌==◌, if◌then◌else◌, get_or,
  set,
}
use dfos.Scheduler.Trace.{Counters, Latency}
use dfos.Base.Words.{add32}

abbrev pub scheduler_max_threads : ℕ
scheduler_max_threads = 32

abbrev pub scheduler_max_cpus : ℕ
scheduler_max_cpus = 8

abbrev pub scheduler_max_numa_nodes : ℕ
scheduler_max_numa_nodes = 4

abbrev pub scheduler_cpu_mask_all : ℕ
scheduler_cpu_mask_all = 0xffffffff

abbrev pub scheduler_wait_forever : ℕ
scheduler_wait_forever = 0xffffffff

abbrev pub priority_normal : ℕ
priority_normal = 2

abbrev pub scheduler_priority_count : ℕ
scheduler_priority_count = 5

pub data TaskState : Type 0 where
  unused runnable running sleeping blocked zombie : TaskState

pub data ListKind : Type 0 where
  no_list free_list runnable_list sleeping_list blocked_list zombie_list : ListKind

-- The values of the enumerations, by which the code compares them.
abbrev pub state_value : TaskState → ℕ
state_value unused = 0
state_value runnable = 1
state_value running = 2
state_value sleeping = 3
state_value blocked = 4
state_value zombie = 5

abbrev pub kind_value : ListKind → ℕ
kind_value no_list = 0
kind_value free_list = 1
kind_value runnable_list = 2
kind_value sleeping_list = 3
kind_value blocked_list = 4
kind_value zombie_list = 5

-- Pointers are numbers, 0 the null pointer. The name is only printed.
pub record Task : Type 0 where
  pub id : ℕ
  pub state : TaskState
  pub priority : ℕ
  pub cpu_affinity_mask : ℕ
  pub preferred_numa_node : ℕ
  pub assigned_cpu : ℕ
  pub assigned_numa_node : ℕ
  pub frame : ℕ
  pub stack_base : ℕ
  pub kernel_stack_top : ℕ
  pub wakeup_tick : ℕ
  pub runnable_enqueue_tick : ℕ
  pub entry : ℕ
  pub arg : ℕ
  pub space : ℕ
  pub wait_channel : ℕ
  pub wait_result : Bool
  pub ticks_in_slice : ℕ
  pub list_kind : ListKind

pub record Cpu : Type 0 where
  pub id : ℕ
  pub numa_node : ℕ
  pub online : Bool
  pub runnable : List (List ℕ)
  pub runnable_count : ℕ
  pub current : Option ℕ

pub data Ipi : Type 0 where
  wakeup_ipi : ℕ → Ipi
  reschedule_ipi : ℕ → Ipi

pub record Scheduler : Type 0 where
  pub tasks : List Task
  pub cpus : List Cpu
  pub free_tasks : List ℕ
  pub sleeping_tasks : List ℕ
  pub blocked_tasks : List ℕ
  pub zombie_tasks : List ℕ
  pub configured_cpu_count : ℕ
  pub configured_node_count : ℕ
  pub boot_cpu_id : ℕ
  pub system_ticks : ℕ
  pub next_task_id : ℕ
  pub last_balance_tick : ℕ
  pub bootstrapped : Bool
  pub counters : Counters
  pub latency : Latency
  pub sent : List Ipi
  pub kernel_stack : ℕ
  pub active_space : ℕ

-- What the processor that runs the code answers: `cpu_current_id` and `cpu_smp_available`.
pub record Processor : Type 0 where
  pub current_id : ℕ
  pub smp_available : Bool

-- task_reset
unfoldable pub task_reset : ℕ → Task
task_reset boot_cpu_id = record {
  id = 0;
  state = unused;
  priority = priority_normal;
  cpu_affinity_mask = scheduler_cpu_mask_all;
  preferred_numa_node = 0xff;
  assigned_cpu = boot_cpu_id;
  assigned_numa_node = 0;
  frame = 0;
  stack_base = 0;
  kernel_stack_top = 0;
  wakeup_tick = 0;
  runnable_enqueue_tick = 0;
  entry = 0;
  arg = 0;
  space = 0;
  wait_channel = 0;
  wait_result = false;
  ticks_in_slice = 0;
  list_kind = no_list;
}

unfoldable pub scheduler_cpu_state_init : ℕ → ℕ → Bool → Cpu
scheduler_cpu_state_init id node online = record {
  id = id;
  numa_node = node;
  online = online;
  runnable = [] ∷ [] ∷ [] ∷ [] ∷ [] ∷ [];
  runnable_count = 0;
  current = none;
}

abbrev pub no_task : Task
no_task = record {
  id = 0;
  state = unused;
  priority = 0;
  cpu_affinity_mask = 0;
  preferred_numa_node = 0;
  assigned_cpu = 0;
  assigned_numa_node = 0;
  frame = 0;
  stack_base = 0;
  kernel_stack_top = 0;
  wakeup_tick = 0;
  runnable_enqueue_tick = 0;
  entry = 0;
  arg = 0;
  space = 0;
  wait_channel = 0;
  wait_result = false;
  ticks_in_slice = 0;
  list_kind = no_list;
}

abbrev pub no_cpu : Cpu
no_cpu = record {
  id = 0;
  numa_node = 0;
  online = false;
  runnable = [];
  runnable_count = 0;
  current = none;
}

-- `&tasks[t]` and `&cpus[c]`
abbrev pub task_at : Scheduler → ℕ → Task
task_at s t = get_or s.tasks t no_task

abbrev pub cpu_at : Scheduler → ℕ → Cpu
cpu_at s c = get_or s.cpus c no_cpu

abbrev pub put_task : Scheduler → ℕ → Task → Scheduler
put_task s t task = record s { tasks = set s.tasks t task }

abbrev pub put_cpu : Scheduler → ℕ → Cpu → Scheduler
put_cpu s c cpu = record s { cpus = set s.cpus c cpu }

abbrev pub queue_at : Cpu → ℕ → List ℕ
queue_at cpu priority = get_or cpu.runnable priority []

abbrev pub has_state : Task → TaskState → Bool
has_state task state = state_value task.state == state_value state

abbrev pub has_kind : Task → ListKind → Bool
has_kind task kind = kind_value task.list_kind == kind_value kind

-- The list without a task.
unfoldable pub without : List ℕ → ℕ → List ℕ
without [] t = []
without (u ∷ list) t = if u == t then list else u ∷ without list t

unfoldable pub scheduler_priority_sanitize : ℕ → ℕ
scheduler_priority_sanitize priority =
    if leb scheduler_priority_count priority then priority_normal else priority

unfoldable pub scheduler_priority_timeslice : ℕ → ℕ
unfolding scheduler_priority_sanitize
scheduler_priority_timeslice priority =
    get_or (2 ∷ 3 ∷ 5 ∷ 7 ∷ 9 ∷ []) (scheduler_priority_sanitize priority) 0

-- The index of the processor's state.
unfoldable pub scheduler_cpu_by_id : Scheduler → ℕ → ℕ
scheduler_cpu_by_id s cpu_id =
    if leb s.configured_cpu_count cpu_id || not (cpu_at s cpu_id).online
    then s.boot_cpu_id
    else cpu_id

unfoldable pub scheduler_current_cpu_state : Processor → Scheduler → ℕ
scheduler_current_cpu_state p s =
    if s.configured_cpu_count == 0
    then 0
    else if leb s.configured_cpu_count p.current_id || not (cpu_at s p.current_id).online
    then s.boot_cpu_id
    else p.current_id

unfoldable pub scheduler_current_cpu : Processor → Scheduler → ℕ
scheduler_current_cpu p s = (cpu_at s (scheduler_current_cpu_state p s)).id

unfoldable pub scheduler_current_task : Processor → Scheduler → Option ℕ
scheduler_current_task p s = (cpu_at s (scheduler_current_cpu_state p s)).current

unfoldable pub scheduler_cpu_load : Scheduler → ℕ → ℕ
scheduler_cpu_load s c =
    let cpu = cpu_at s c in
    let load = cpu.runnable_count in
    elim cpu.current [
      | none ↦ load
      | some t ↦ if has_state (task_at s t) running then add32 load 1 else load
    ]
