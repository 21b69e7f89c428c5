-- ===== src/Scheduler/Tests.antt =====
-- Concrete runs of kernel/kernel/scheduler.c on two processors.
use dfos.Base.{ℕ, Option, none, ◌==◌, if◌then◌else◌, true, false, [], ◌∷◌, some, ◌≡◌, refl, arith}
use dfos.Pmm.State.{Pmm}
use dfos.Base.Masks.{shifted_one}
use dfos.Scheduler.Select.{
  View, uint_max, scheduler_select_best_cpu_from_view, online_mask_from, normalized_affinity,
  is_eligible, consider, pass_from, run_pass,
}
use dfos.Scheduler.Selected.{IsSelected, scheduler_select_best_cpu_from_view-IsSelected}
use dfos.Scheduler.Trace.{reset_counters, reset_latency}
use dfos.Scheduler.State.{
  Scheduler, Processor, running, task_at, has_state, scheduler_cpu_state_init,
  scheduler_current_cpu_state, task_reset, without, scheduler_priority_timeslice,
  scheduler_cpu_by_id, scheduler_cpu_load,
}
use dfos.Scheduler.Queues.{
  scheduler_allocate_task_slot, scheduler_cpu_dequeue_next_runnable,
  scheduler_notify_remote_runnable, push_runnable, scheduler_cpu_enqueue_runnable_local,
  scheduler_cpu_enqueue_runnable, drop_runnable, first_from, dequeue_found,
  scheduler_release_task_slot,
}
use dfos.Scheduler.Dispatch.{
  scheduler_on_yield, run_next, scheduler_switch_to_task, pick_next, scheduler_schedule_cpu,
}
use dfos.Scheduler.Tasks.{
  fill_bootstrap, bootstrap_task, PagingAnswers, scheduler_bootstrap_cpu_task,
  scheduler_create_kernel_task_ex, scheduler_task_config_default, scheduler_online_cpu_mask,
  scheduler_normalize_affinity_mask, scheduler_select_target_cpu, effective_config, filled_task,
  publish_task, equip_task, with_slot,
}
use dfos.Scheduler.Topology.{
  indices_from, cpus_from, TopologyConfig, is_refused, nodes_exist, scheduler_has_live_tasks,
  any_live, scheduler_configure_topology, cleared, fresh_tasks, free_task, scheduler_init,
}
use dfos.Scheduler.Waiting.{
  begin_wait, begin_exit, scheduler_reap_zombies, deadline, scheduler_wake_channel, is_current_from,
  scheduler_task_is_current_on_any_cpu_locked, scheduler_detach_zombie_task_locked, detach_first,
  reap_from,
}
use dfos.Scheduler.Balance.{loads_from, view_of}
use dfos.Scheduler.Placed.{IsPlaced}
use dfos.Scheduler.Next.{IsNext, scheduler_cpu_dequeue_next_runnable-IsNext}
use dfos.Scheduler.Yields.{IsYield}
use dfos.Scheduler.Balanced.{Balanced}
use dfos.Scheduler.Latency.{Summary, Below, recorded, recorded-Summary}
use dfos.Scheduler.WakeChannel.{IsWoken, take_first, waiters, scheduler_wake_channel-IsWoken}
use dfos.Scheduler.Reaping.{IsReaped, scheduler_reap_zombies-IsReaped}
use dfos.Scheduler.Blocks.{begin_wait-IsPlaced, begin_exit-IsPlaced, scheduler_on_yield-IsYield}
use dfos.Scheduler.Created.{
  scheduler_create_kernel_task_ex-IsPlaced, scheduler_bootstrap_cpu_task-IsPlaced,
}
use dfos.Scheduler.Started.{
  IsStarted, configure_topology-IsPlaced, cleared-Fresh, scheduler_init-IsStarted,
}

abbrev memory : Pmm
memory = record {
  frame_bitmap = 0 ∷ 0 ∷ [];
  total_frames = 16;
  free_frames = 16;
  initialized = true;
  numa_nodes =
      record { first_frame = 0; frame_count = 16; free_frames = 16; next_scan_frame = 0 } ∷ [];
  round_robin_numa_node = 0;
  global_next_scan_frame = 0;
}

unfoldable blank : Scheduler
unfolding reset_counters reset_latency
blank = record {
  tasks = [];
  cpus = [];
  free_tasks = [];
  sleeping_tasks = [];
  blocked_tasks = [];
  zombie_tasks = [];
  configured_cpu_count = 0;
  configured_node_count = 0;
  boot_cpu_id = 0;
  system_ticks = 0;
  next_task_id = 0;
  last_balance_tick = 0;
  bootstrapped = false;
  counters = reset_counters;
  latency = reset_latency;
  sent = [];
  kernel_stack = 0;
  active_space = 0;
}

abbrev two_cpus : TopologyConfig
two_cpus = record {
  cpu_count = 2;
  boot_cpu_id = 0;
  node_count = 1;
  cpu_to_node = 0 ∷ 0 ∷ [];
  cpu_online = true ∷ true ∷ [];
}

abbrev processor : Processor
processor = record { current_id = 0; smp_available = true }

abbrev paging : PagingAnswers
paging = record {
  create_process_space_on_node = λ node. some 7;
  alloc_pages_on_node = λ node. some 0x100000;
}

-- Two processors, the first with its first task, and two tasks created after it.
unfoldable configured : Scheduler
configured = (scheduler_configure_topology two_cpus (cleared blank) memory).1

unfoldable booted : Scheduler
booted = (scheduler_bootstrap_cpu_task 0 0x9000 1 configured).1

unfoldable one_task : Scheduler
one_task =
    (scheduler_create_kernel_task_ex processor paging 0x4000 1 scheduler_task_config_default
      booted).2

unfoldable two_tasks : Scheduler
two_tasks =
    (scheduler_create_kernel_task_ex processor paging 0x5000 2 scheduler_task_config_default
      one_task).2

accepted : is_refused two_cpus (cleared blank) ≡ false
unfolding is_refused cleared scheduler_has_live_tasks any_live fresh_tasks free_task task_reset
    nodes_exist
accepted = refl

two_tasks-IsPlaced : IsPlaced two_tasks
unfolding two_tasks one_task booted configured
two_tasks-IsPlaced =
    scheduler_create_kernel_task_ex-IsPlaced processor paging 0x5000 2 scheduler_task_config_default
      one_task
      (scheduler_create_kernel_task_ex-IsPlaced processor paging 0x4000 1
        scheduler_task_config_default booted
        (scheduler_bootstrap_cpu_task-IsPlaced 0 0x9000 1 configured (
          configure_topology-IsPlaced two_cpus (cleared blank) memory (cleared-Fresh blank)
            accepted)))

scheduler_on_yield-IsYield_example :
    IsYield
      (scheduler_current_cpu_state processor two_tasks)
      0x8000
      two_tasks
      (scheduler_on_yield processor 0x8000 two_tasks)
scheduler_on_yield-IsYield_example =
    scheduler_on_yield-IsYield processor 0x8000 two_tasks two_tasks-IsPlaced

scheduler_cpu_dequeue_next_runnable-IsNext_example :
    IsNext 1 two_tasks
      (scheduler_cpu_dequeue_next_runnable 1 two_tasks).0
      (scheduler_cpu_dequeue_next_runnable 1 two_tasks).1
scheduler_cpu_dequeue_next_runnable-IsNext_example =
    scheduler_cpu_dequeue_next_runnable-IsNext 1 two_tasks two_tasks-IsPlaced

scheduler_init-IsStarted_example : IsStarted memory (scheduler_init blank memory)
scheduler_init-IsStarted_example = scheduler_init-IsStarted blank memory

abbrev view : View
view = record {
  cpu_count = 2;
  cpu_online = true ∷ true ∷ [];
  cpu_to_node = 0 ∷ 1 ∷ [];
  cpu_load = 3 ∷ 1 ∷ [];
}

scheduler_select_best_cpu_from_view-IsSelected_example :
    IsSelected view 3 1 0 (scheduler_select_best_cpu_from_view view 3 1 0)
scheduler_select_best_cpu_from_view-IsSelected_example =
    scheduler_select_best_cpu_from_view-IsSelected view 3 1 0 (omega arith)

-- A wait that ends at tick 0 after the wrap never ends.
wait_wraps : deadline (record blank { system_ticks = 0xfffffffb }) 5 ≡ 0
unfolding deadline blank
wait_wraps = refl

first_runs : has_state (task_at booted 0) running ≡ true
unfolding booted configured scheduler_configure_topology is_refused cleared scheduler_has_live_tasks
    any_live fresh_tasks indices_from free_task task_reset nodes_exist cpus_from
    scheduler_cpu_state_init scheduler_bootstrap_cpu_task scheduler_allocate_task_slot
    fill_bootstrap bootstrap_task
first_runs = refl

booted-IsPlaced : IsPlaced booted
unfolding booted configured
booted-IsPlaced =
    scheduler_bootstrap_cpu_task-IsPlaced 0 0x9000 1 configured
      (configure_topology-IsPlaced two_cpus (cleared blank) memory (cleared-Fresh blank) accepted)

-- The first task waits on channel 9.
unfoldable waiting : Scheduler
waiting = begin_wait 9 100 0 booted

scheduler_wake_channel-IsWoken_example :
    IsWoken waiting
      (take_first (if 1 == 0 then uint_max else 1) (waiters waiting 9 waiting.blocked_tasks))
      (scheduler_wake_channel processor 9 1 waiting).0
      (scheduler_wake_channel processor 9 1 waiting).1
unfolding waiting
scheduler_wake_channel-IsWoken_example =
    scheduler_wake_channel-IsWoken processor 9 1 waiting
      (begin_wait-IsPlaced booted booted-IsPlaced 0 first_runs 9 100)
      (λ e. absurd (omega (arith, e)))

two_tasks_runs : has_state (task_at two_tasks 0) running ≡ true
unfolding two_tasks one_task booted configured scheduler_cpu_state_init
    scheduler_notify_remote_runnable scheduler_cpu_enqueue_runnable_local
    scheduler_cpu_enqueue_runnable scheduler_allocate_task_slot publish_task equip_task with_slot
    scheduler_create_kernel_task_ex bootstrap_task fill_bootstrap scheduler_bootstrap_cpu_task
    any_live scheduler_has_live_tasks nodes_exist cpus_from is_refused scheduler_configure_topology
    free_task fresh_tasks indices_from cleared
two_tasks_runs = refl

-- The first task has ended and the processor has gone on to the next one.
unfoldable gone_on : Scheduler
gone_on = elim (scheduler_on_yield processor 0x8000 (begin_exit 0 two_tasks)) [
  | none ↦ two_tasks
  | some (frame, s) ↦ s
]

yielded-IsPlaced :
    (c frame : ℕ) (s s' : Scheduler) (r : Option (ℕ × Scheduler))
    → IsPlaced s'
    → IsYield c frame s r
    → IsPlaced (elim r [ none ↦ s' | some (frame, s) ↦ s ])
unfolding IsYield
yielded-IsPlaced c frame s s' none v k = v
yielded-IsPlaced c frame s s' (some (f, s'')) v (h, t, (handed, picked)) = picked.placed

gone_on-IsPlaced : IsPlaced gone_on
unfolding gone_on
gone_on-IsPlaced =
    yielded-IsPlaced _ 0x8000 (begin_exit 0 two_tasks) two_tasks _ two_tasks-IsPlaced (
      scheduler_on_yield-IsYield processor 0x8000 (begin_exit 0 two_tasks)
        (begin_exit-IsPlaced two_tasks two_tasks-IsPlaced 0 two_tasks_runs))

one_reaped : (scheduler_reap_zombies 1 0 gone_on).0 ≡ 1
unfolding gone_on two_tasks one_task booted configured online_mask_from shifted_one
    normalized_affinity is_eligible consider pass_from run_pass scheduler_select_best_cpu_from_view
    scheduler_cpu_state_init without scheduler_priority_timeslice scheduler_cpu_by_id
    scheduler_current_cpu_state scheduler_cpu_load scheduler_notify_remote_runnable push_runnable
    scheduler_cpu_enqueue_runnable_local scheduler_cpu_enqueue_runnable drop_runnable first_from
    dequeue_found scheduler_cpu_dequeue_next_runnable scheduler_allocate_task_slot
    scheduler_release_task_slot scheduler_online_cpu_mask scheduler_normalize_affinity_mask
    scheduler_select_target_cpu scheduler_task_config_default effective_config filled_task
    publish_task equip_task with_slot scheduler_create_kernel_task_ex bootstrap_task fill_bootstrap
    scheduler_bootstrap_cpu_task any_live scheduler_has_live_tasks nodes_exist cpus_from is_refused
    scheduler_configure_topology free_task fresh_tasks indices_from cleared run_next
    scheduler_switch_to_task pick_next scheduler_schedule_cpu scheduler_on_yield is_current_from
    scheduler_task_is_current_on_any_cpu_locked scheduler_detach_zombie_task_locked detach_first
    reap_from begin_exit scheduler_reap_zombies loads_from view_of
one_reaped = refl

scheduler_reap_zombies-IsReaped_example :
    IsReaped gone_on
      (if 0 == 0 then uint_max else 0)
      (scheduler_reap_zombies 1 0 gone_on).0
      (scheduler_reap_zombies 1 0 gone_on).2
scheduler_reap_zombies-IsReaped_example =
    scheduler_reap_zombies-IsReaped 1 0 gone_on gone_on-IsPlaced

recorded-Summary_example : Summary (3 ∷ 10 ∷ 0 ∷ []) (recorded (3 ∷ 10 ∷ 0 ∷ []))
unfolding Below
recorded-Summary_example =
    recorded-Summary (3 ∷ 10 ∷ 0 ∷ []) (omega arith, (omega arith, (omega arith, omega arith)))
