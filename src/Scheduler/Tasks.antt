-- ===== src/Scheduler/Tasks.antt =====
-- Creation and bookkeeping of tasks in kernel/kernel/scheduler.c.
use dfos.Base.{
  ℕ, ◌+◌, ◌-◌, Bool, true, false, ◌&&◌, ◌||◌, not, List, [], ◌∷◌, Option, none, some, leb, ◌==◌,
  if◌then◌else◌, set, map,
}
use dfos.Base.Words.{add32, sub32}
use dfos.Scheduler.Select.{
  scheduler_invalid_cpu_id, scheduler_numa_node_any, online_mask_from, normalized_affinity,
  scheduler_select_best_cpu_from_view,
}
use dfos.Scheduler.Trace.{scheduler_trace_counter_inc}
use dfos.Scheduler.State.{
  Scheduler, Processor, Task, Cpu, unused, runnable, running, runnable_list, task_at, cpu_at,
  put_task, has_state, has_kind, scheduler_cpu_mask_all, priority_normal,
  scheduler_priority_sanitize, scheduler_cpu_by_id, scheduler_current_cpu,
}
use dfos.Scheduler.Queues.{
  reschedule, count_event, scheduler_allocate_task_slot, scheduler_release_task_slot,
  scheduler_cpu_enqueue_runnable, scheduler_enqueue_runnable, scheduler_remove_runnable,
}
use dfos.Scheduler.Balance.{view_of}

unfoldable pub scheduler_online_cpu_mask : Scheduler → ℕ
scheduler_online_cpu_mask s =
    online_mask_from (map (λ (c : Cpu). c.online) s.cpus) 0 s.configured_cpu_count 0

unfoldable pub scheduler_normalize_affinity_mask : Scheduler → ℕ → ℕ
scheduler_normalize_affinity_mask s affinity_mask =
    normalized_affinity affinity_mask (scheduler_online_cpu_mask s)

unfoldable pub scheduler_select_target_cpu : Processor → Scheduler → ℕ → ℕ → ℕ
scheduler_select_target_cpu p s affinity_mask preferred_numa_node =
    let local_cpu = if s.bootstrapped then scheduler_current_cpu p s else s.boot_cpu_id in
    let selected =
      scheduler_select_best_cpu_from_view (view_of s) affinity_mask preferred_numa_node local_cpu in
    if selected == scheduler_invalid_cpu_id then s.boot_cpu_id else selected

pub record TaskConfig : Type 0 where
  pub priority : ℕ
  pub cpu_affinity_mask : ℕ
  pub preferred_numa_node : ℕ

unfoldable pub scheduler_task_config_default : TaskConfig
scheduler_task_config_default = record {
  priority = priority_normal;
  cpu_affinity_mask = scheduler_cpu_mask_all;
  preferred_numa_node = scheduler_numa_node_any;
}

-- What a configuration is made into before it is used.
unfoldable pub effective_config : Scheduler → TaskConfig → TaskConfig
effective_config s config = record {
  priority = scheduler_priority_sanitize config.priority;
  cpu_affinity_mask = scheduler_normalize_affinity_mask s config.cpu_affinity_mask;
  preferred_numa_node =
      if not (config.preferred_numa_node == scheduler_numa_node_any)
        && leb s.configured_node_count config.preferred_numa_node
      then scheduler_numa_node_any
      else config.preferred_numa_node;
}

-- What paging answers to the calls of a creation: the new address space and stack, by node.
pub record PagingAnswers : Type 0 where
  pub create_process_space_on_node : ℕ → Option ℕ
  pub alloc_pages_on_node : ℕ → Option ℕ

-- The calls that give resources back.
pub data Release : Type 0 where
  free_pages : ℕ → Release
  destroy_process_space : ℕ → Release

abbrev pub task_stack_size : ℕ
task_stack_size = 16384

-- `sizeof(interrupt_frame_t)`
abbrev pub sizeof_frame : ℕ
sizeof_frame = 52

-- What is written in the slot. The frame's registers are not part of the model.
unfoldable pub filled_task : TaskConfig → ℕ → Cpu → ℕ → ℕ → ℕ → ℕ → Task → Task
filled_task config id cpu entry arg space stack task = record task {
  id = id;
  state = runnable;
  priority = config.priority;
  cpu_affinity_mask = config.cpu_affinity_mask;
  preferred_numa_node = config.preferred_numa_node;
  assigned_cpu = cpu.id;
  assigned_numa_node = cpu.numa_node;
  frame = sub32 (add32 stack task_stack_size) sizeof_frame;
  stack_base = stack;
  kernel_stack_top = add32 stack task_stack_size;
  wakeup_tick = 0;
  runnable_enqueue_tick = 0;
  entry = entry;
  arg = arg;
  space = space;
  ticks_in_slice = 0;
  wait_channel = 0;
  wait_result = false;
}

-- The task in its slot, and in a run queue.
unfoldable pub publish_task : Processor → TaskConfig → ℕ → ℕ → ℕ → ℕ → ℕ → Scheduler → Scheduler
publish_task p config t entry arg space stack s =
    let c =
      scheduler_cpu_by_id s
        (scheduler_select_target_cpu p s config.cpu_affinity_mask config.preferred_numa_node) in
    let task = filled_task config s.next_task_id (cpu_at s c) entry arg space stack (task_at s t) in
    count_event (λ n. record n { task_creations = scheduler_trace_counter_inc n.task_creations })
      (scheduler_cpu_enqueue_runnable p c t reschedule
        (record (put_task s t task) { next_task_id = add32 s.next_task_id 1 }))

-- With the slot reserved: the address space, the stack, and then the task, each failure of which
-- gives back what was taken. Nothing else runs in between here.
unfoldable pub equip_task :
    Processor
    → PagingAnswers
    → ℕ
    → TaskConfig
    → ℕ
    → ℕ
    → ℕ
    → Scheduler
    → Bool × List Release × Scheduler
equip_task p paging node config t entry arg s = elim (paging.create_process_space_on_node node) [
  | none ↦ (false, [], scheduler_release_task_slot t s)
  | some space ↦ elim (paging.alloc_pages_on_node node) [
    | none ↦ (false, destroy_process_space space ∷ [], scheduler_release_task_slot t s)
    | some stack ↦
        if s.configured_cpu_count == 0
        then (
          false,
          free_pages stack ∷ destroy_process_space space ∷ [],
          scheduler_release_task_slot t s,
        )
        else (true, [], publish_task p config t entry arg space stack s)
  ]
]

unfoldable pub with_slot :
    Processor
    → PagingAnswers
    → ℕ
    → TaskConfig
    → ℕ
    → ℕ
    → Option ℕ × Scheduler
    → Bool × List Release × Scheduler
with_slot p paging node config entry arg (none, s) = (false, [], s)
with_slot p paging node config entry arg (some t, s) = equip_task p paging node config t entry arg s

unfoldable pub scheduler_create_kernel_task_ex :
    Processor → PagingAnswers → ℕ → ℕ → TaskConfig → Scheduler → Bool × List Release × Scheduler
scheduler_create_kernel_task_ex p paging entry arg config s =
    let effective = effective_config s config in
    let hint =
      scheduler_select_target_cpu p s effective.cpu_affinity_mask effective.preferred_numa_node in
    let node = (cpu_at s (scheduler_cpu_by_id s hint)).numa_node in
    if entry == 0 || s.configured_cpu_count == 0
    then (false, [], s)
    else with_slot p paging node effective entry arg (scheduler_allocate_task_slot s)

unfoldable pub scheduler_create_kernel_task :
    Processor → PagingAnswers → ℕ → ℕ → Scheduler → Bool × List Release × Scheduler
scheduler_create_kernel_task p paging entry arg s =
    scheduler_create_kernel_task_ex p paging entry arg scheduler_task_config_default s

unfoldable pub bootstrap_task : ℕ → Cpu → ℕ → ℕ → ℕ → Task → Task
bootstrap_task id cpu affinity kernel_stack_top kernel_space task = record task {
  id = id;
  state = running;
  priority = priority_normal;
  cpu_affinity_mask = affinity;
  preferred_numa_node = scheduler_numa_node_any;
  assigned_cpu = cpu.id;
  assigned_numa_node = cpu.numa_node;
  frame = 0;
  stack_base = 0;
  kernel_stack_top = kernel_stack_top;
  wakeup_tick = 0;
  runnable_enqueue_tick = 0;
  entry = 0;
  arg = 0;
  space = kernel_space;
  ticks_in_slice = 0;
  wait_channel = 0;
  wait_result = false;
}

unfoldable pub fill_bootstrap : ℕ → ℕ → ℕ → ℕ → Scheduler → Scheduler
fill_bootstrap c kernel_stack_top kernel_space t s = record s {
  next_task_id = add32 s.next_task_id 1;
  cpus = set s.cpus c (record (cpu_at s c) { current = some t });
  tasks = set s.tasks t (
      bootstrap_task s.next_task_id (cpu_at s c) (scheduler_online_cpu_mask s) kernel_stack_top
        kernel_space (task_at s t));
}

abbrev pub bootstrap_slot : ℕ → ℕ → ℕ → Option ℕ × Scheduler → Option ℕ × Scheduler
bootstrap_slot c kernel_stack_top kernel_space (none, s) = (none, s)
bootstrap_slot c kernel_stack_top kernel_space (some t, s) =
    (some t, fill_bootstrap c kernel_stack_top kernel_space t s)

unfoldable pub scheduler_bootstrap_cpu_task : ℕ → ℕ → ℕ → Scheduler → Option ℕ × Scheduler
scheduler_bootstrap_cpu_task c kernel_stack_top kernel_space s =
    if (s.configured_cpu_count == 0 || leb s.configured_cpu_count c)
      || (not (cpu_at s c).online || elim (cpu_at s c).current [ none ↦ false | some _ ↦ true ])
    then (none, s)
    else bootstrap_slot c kernel_stack_top kernel_space (scheduler_allocate_task_slot s)

abbrev attach_current : ℕ → Option ℕ × Scheduler → Option Scheduler
attach_current current_space (none, s) = none
attach_current current_space (some t, s) =
    let task = record (task_at s t) { space = current_space } in
    some (record (put_task s t task) { bootstrapped = true; kernel_stack = task.kernel_stack_top })

-- `none` is a panic.
unfoldable pub scheduler_bootstrap_current : ℕ → ℕ → ℕ → Scheduler → Option Scheduler
scheduler_bootstrap_current stack_top kernel_space current_space s =
    if s.bootstrapped || s.configured_cpu_count == 0
    then none
    else attach_current current_space
        (scheduler_bootstrap_cpu_task s.boot_cpu_id stack_top kernel_space s)

abbrev is_some : Option ℕ × Scheduler → Bool × Scheduler
is_some (none, s) = (false, s)
is_some (some t, s) = (true, s)

unfoldable pub scheduler_bootstrap_secondary_current : ℕ → ℕ → ℕ → Scheduler → Bool × Scheduler
scheduler_bootstrap_secondary_current cpu_id kernel_stack_top kernel_space s =
    if not s.bootstrapped || (leb s.configured_cpu_count cpu_id || cpu_id == s.boot_cpu_id)
    then (false, s)
    else is_some (scheduler_bootstrap_cpu_task cpu_id kernel_stack_top kernel_space s)

-- The index of the first live task with this number.
unfoldable pub find_task_from : List Task → ℕ → ℕ → Option ℕ
find_task_from [] t task_id = none
find_task_from (task ∷ tasks) t task_id =
    if not (has_state task unused) && task.id == task_id
    then some t
    else find_task_from tasks (t + 1) task_id

unfoldable pub scheduler_find_task_by_id : Scheduler → ℕ → Option ℕ
scheduler_find_task_by_id s task_id = find_task_from s.tasks 0 task_id

unfoldable pub change_priority : Processor → ℕ → ℕ → Scheduler → Scheduler
change_priority p t priority s =
    let off =
      if has_state (task_at s t) runnable && has_kind (task_at s t) runnable_list
      then scheduler_remove_runnable t s
      else s in
    let changed = put_task off t (record (task_at off t) { priority = priority }) in
    let queued =
      if has_state (task_at changed t) runnable
      then scheduler_enqueue_runnable p t reschedule changed
      else changed in
    let sliced =
      if has_state (task_at queued t) running
      then put_task queued t (record (task_at queued t) { ticks_in_slice = 0 })
      else queued in
    count_event
      (λ n. record n { priority_updates = scheduler_trace_counter_inc n.priority_updates }) sliced

unfoldable pub scheduler_set_task_priority : Processor → ℕ → ℕ → Scheduler → Bool × Scheduler
scheduler_set_task_priority p task_id priority s =
    let safe_priority = scheduler_priority_sanitize priority in
    elim (scheduler_find_task_by_id s task_id) [
      | none ↦ (false, s)
      | some t ↦
          if (task_at s t).priority == safe_priority
          then (true, s)
          else (true, change_priority p t safe_priority s)
    ]

unfoldable pub count_live : List Task → ℕ
count_live [] = 0
count_live (task ∷ tasks) = (if has_state task unused then 0 else 1) + count_live tasks

unfoldable pub scheduler_task_count : Scheduler → ℕ
scheduler_task_count s = count_live s.tasks

-- The live task number `index`, in the order of the slots.
unfoldable pub live_task : List Task → ℕ → Option Task
live_task [] index = none
live_task (task ∷ tasks) index =
    let rest = live_task tasks index in
    let later = live_task tasks (index - 1) in
    if has_state task unused then rest else if index == 0 then some task else later
