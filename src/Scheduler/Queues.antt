-- ===== src/Scheduler/Queues.antt =====
-- The run queues of kernel/kernel/scheduler.c.
use dfos.Base.{
  bit_and, ℕ, zero, suc, ◌+◌, ◌-◌, Bool, true, false, ◌||◌, not, [], ◌∷◌, ◌++◌, Option, none, some,
  ltb, ◌==◌, if◌then◌else◌, set, length,
}
use dfos.Base.Words.{add32, sub32}
use dfos.Base.Masks.{shifted_one}
use dfos.Scheduler.Trace.{Counters, scheduler_trace_counter_inc, scheduler_trace_latency_record}
use dfos.Scheduler.State.{
  Scheduler, Processor, Cpu, runnable, runnable_list, no_list, free_list, wakeup_ipi,
  reschedule_ipi, task_at, cpu_at, queue_at, has_state, has_kind, without,
  scheduler_priority_sanitize, scheduler_priority_count, scheduler_cpu_by_id, scheduler_current_cpu,
  task_reset,
}

pub data EnqueueReason : Type 0 where
  reschedule : EnqueueReason
  wakeup : EnqueueReason

abbrev pub count_event : (Counters → Counters) → Scheduler → Scheduler
count_event f s = record s { counters = f s.counters }

unfoldable pub count_ipi : EnqueueReason → ℕ → Scheduler → Scheduler
count_ipi wakeup id s = record s {
  counters = record s.counters {
    remote_wakeup_ipis = scheduler_trace_counter_inc s.counters.remote_wakeup_ipis;
  };
  sent = s.sent ++ (wakeup_ipi id ∷ []);
}
count_ipi reschedule id s = record s {
  counters = record s.counters {
    remote_reschedule_ipis = scheduler_trace_counter_inc s.counters.remote_reschedule_ipis;
  };
  sent = s.sent ++ (reschedule_ipi id ∷ []);
}

unfoldable pub scheduler_notify_remote_runnable :
    Processor → ℕ → EnqueueReason → Scheduler → Scheduler
scheduler_notify_remote_runnable p c reason s =
    let cpu = cpu_at s c in
    if ((not s.bootstrapped || not cpu.online) || not p.smp_available)
      || cpu.id == scheduler_current_cpu p s
    then s
    else count_ipi reason cpu.id s

-- The task at the back of the queue of its priority.
unfoldable pub push_runnable : Cpu → ℕ → ℕ → Cpu
push_runnable cpu priority t = record cpu {
  runnable = set cpu.runnable priority (queue_at cpu priority ++ (t ∷ []));
  runnable_count = add32 cpu.runnable_count 1;
}

unfoldable pub scheduler_cpu_enqueue_runnable_local : ℕ → ℕ → Scheduler → Scheduler
scheduler_cpu_enqueue_runnable_local c t s =
    let cpu = cpu_at s c in
    let task = task_at s t in
    let priority = scheduler_priority_sanitize task.priority in
    record s {
      tasks = set s.tasks t (record task {
        priority = priority;
        assigned_cpu = cpu.id;
        assigned_numa_node = cpu.numa_node;
        state = runnable;
        ticks_in_slice = 0;
        runnable_enqueue_tick = s.system_ticks;
        list_kind = runnable_list;
      });
      cpus = set s.cpus c (push_runnable cpu priority t);
    }

unfoldable pub scheduler_cpu_enqueue_runnable :
    Processor → ℕ → ℕ → EnqueueReason → Scheduler → Scheduler
scheduler_cpu_enqueue_runnable p c t reason s =
    scheduler_notify_remote_runnable p c reason (scheduler_cpu_enqueue_runnable_local c t s)

unfoldable pub scheduler_enqueue_runnable : Processor → ℕ → EnqueueReason → Scheduler → Scheduler
scheduler_enqueue_runnable p t reason s =
    scheduler_cpu_enqueue_runnable p (scheduler_cpu_by_id s (task_at s t).assigned_cpu) t reason s

-- The task out of the queue of its priority.
unfoldable pub drop_runnable : Cpu → ℕ → ℕ → Cpu
drop_runnable cpu priority t = record cpu {
  runnable = set cpu.runnable priority (without (queue_at cpu priority) t);
  runnable_count = if ltb 0 cpu.runnable_count then cpu.runnable_count - 1 else cpu.runnable_count;
}

-- `task_list_remove` at the queue of a processor.
unfoldable pub remove_from_queue : ℕ → ℕ → Scheduler → Scheduler
remove_from_queue c t s =
    let task = task_at s t in
    record s {
      tasks = set s.tasks t (record task { list_kind = no_list });
      cpus =
          set s.cpus c (drop_runnable (cpu_at s c) (scheduler_priority_sanitize task.priority) t);
    }

unfoldable pub scheduler_remove_runnable : ℕ → Scheduler → Scheduler
scheduler_remove_runnable t s =
    let task = task_at s t in
    if not (has_kind task runnable_list) || not (has_state task runnable)
    then s
    else remove_from_queue (scheduler_cpu_by_id s task.assigned_cpu) t s

-- The first task of the queues from `priority` on.
unfoldable pub first_from : Cpu → ℕ → ℕ → Option (ℕ × ℕ)
first_from cpu priority zero = none
first_from cpu priority (suc rounds) = elim (queue_at cpu priority) [
  | [] ↦ first_from cpu (priority + 1) rounds
  | t ∷ _ ↦ some (priority, t)
]

-- The task that the loop found, off its queue.
unfoldable pub dequeue_found : ℕ → Scheduler → Option (ℕ × ℕ) → Option ℕ × Scheduler
dequeue_found c s none = (none, s)
dequeue_found c s (some (priority, t)) =
    let task = task_at s t in
    (
      some t,
      record s {
        tasks = set s.tasks t (record task { list_kind = no_list });
        cpus = set s.cpus c (drop_runnable (cpu_at s c) priority t);
        latency = record s.latency {
          runnable_wait_ticks =
              scheduler_trace_latency_record s.latency.runnable_wait_ticks
                (sub32 s.system_ticks task.runnable_enqueue_tick);
        };
      },
    )

unfoldable pub scheduler_cpu_dequeue_next_runnable : ℕ → Scheduler → Option ℕ × Scheduler
scheduler_cpu_dequeue_next_runnable c s =
    dequeue_found c s (first_from (cpu_at s c) 0 scheduler_priority_count)

unfoldable pub scheduler_migrate_runnable_task :
    Processor → ℕ → ℕ → ℕ → Bool → Scheduler → Bool × Scheduler
scheduler_migrate_runnable_task p source target t notify_target s =
    let task = task_at s t in
    let source_cpu = cpu_at s source in
    let target_cpu = cpu_at s target in
    let moved = scheduler_cpu_enqueue_runnable_local target t (remove_from_queue source t s) in
    let told =
      if notify_target then scheduler_notify_remote_runnable p target reschedule moved else moved in
    if (source == target || (not source_cpu.online || not target_cpu.online))
      || ((not (has_state task runnable) || not (has_kind task runnable_list))
          || (not (task.assigned_cpu == source_cpu.id)
              || bit_and task.cpu_affinity_mask (shifted_one target_cpu.id) == 0))
    then (false, s)
    else (
      true,
      count_event
          (λ n. record n { task_migrations = scheduler_trace_counter_inc n.task_migrations }) told,
    )

unfoldable pub scheduler_allocate_task_slot : Scheduler → Option ℕ × Scheduler
scheduler_allocate_task_slot s = elim s.free_tasks [
  | [] ↦ (none, s)
  | t ∷ rest ↦
      (some t, record s { free_tasks = rest; tasks = set s.tasks t (task_reset s.boot_cpu_id) })
]

unfoldable pub scheduler_release_task_slot : ℕ → Scheduler → Scheduler
scheduler_release_task_slot t s = record s {
  tasks = set s.tasks t (record (task_reset s.boot_cpu_id) { list_kind = free_list });
  free_tasks = s.free_tasks ++ (t ∷ []);
}

-- The loop over the queues above a priority.
unfoldable pub any_queued : Cpu → ℕ → ℕ → Bool
any_queued cpu priority zero = false
any_queued cpu priority (suc rounds) =
    ltb 0 (length (queue_at cpu priority)) || any_queued cpu (priority + 1) rounds

unfoldable pub scheduler_cpu_has_higher_priority_runnable : Cpu → ℕ → Bool
scheduler_cpu_has_higher_priority_runnable cpu priority =
    any_queued cpu 0 (scheduler_priority_sanitize priority)
