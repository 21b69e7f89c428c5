-- ===== src/Scheduler/Dispatch.antt =====
-- Timers, dispatching and preemption in kernel/kernel/scheduler.c. A frame is a pointer to the
-- registers saved on a task's stack. `none` is a panic.
use dfos.Base.{
  ℕ, Bool, true, false, ◌&&◌, ◌||◌, not, List, [], ◌∷◌, Option, none, some, leb, ◌==◌,
  if◌then◌else◌, set,
}
use dfos.Base.Words.{add32, sub32}
use dfos.Scheduler.Trace.{scheduler_trace_counter_inc, scheduler_trace_latency_record}
use dfos.Scheduler.State.{
  Scheduler, Processor, Task, running, no_list, task_at, cpu_at, put_task, has_state, without,
  scheduler_priority_timeslice, scheduler_current_cpu_state,
}
use dfos.Scheduler.Queues.{
  wakeup, reschedule, count_event, scheduler_enqueue_runnable, scheduler_cpu_enqueue_runnable,
  scheduler_cpu_dequeue_next_runnable, scheduler_cpu_has_higher_priority_runnable,
}
use dfos.Scheduler.Balance.{scheduler_should_balance_now, scheduler_balance_periodic}

abbrev pub count_wakeup : Scheduler → Scheduler
count_wakeup s = count_event (λ n. record n { wakeups = scheduler_trace_counter_inc n.wakeups }) s

-- A sleeping task off its list.
unfoldable pub take_sleeper : ℕ → Scheduler → Scheduler
take_sleeper t s =
    let task = task_at s t in
    record s {
      latency = record s.latency {
        sleep_overshoot_ticks =
            scheduler_trace_latency_record s.latency.sleep_overshoot_ticks
              (sub32 s.system_ticks task.wakeup_tick);
      };
      sleeping_tasks = without s.sleeping_tasks t;
      tasks = set s.tasks t (record task { list_kind = no_list });
    }

-- If it is due.
unfoldable pub wake_sleeper : Processor → ℕ → Scheduler → Scheduler
wake_sleeper p t s =
    if leb (task_at s t).wakeup_tick s.system_ticks
    then count_wakeup (scheduler_enqueue_runnable p t wakeup (take_sleeper t s))
    else s

-- A blocked task off its list, at the end of its time.
unfoldable pub take_late : ℕ → Scheduler → Scheduler
take_late t s =
    let task = task_at s t in
    record s {
      latency = record s.latency {
        wait_timeout_overshoot_ticks =
            scheduler_trace_latency_record s.latency.wait_timeout_overshoot_ticks
              (sub32 s.system_ticks task.wakeup_tick);
      };
      blocked_tasks = without s.blocked_tasks t;
      tasks = set s.tasks t (record task {
        list_kind = no_list;
        wait_channel = 0;
        wait_result = false;
        wakeup_tick = 0;
      });
    }

-- If it waits for a time, and that is over.
unfoldable pub time_out : Processor → ℕ → Scheduler → Scheduler
time_out p t s =
    let task = task_at s t in
    if not (task.wakeup_tick == 0) && leb task.wakeup_tick s.system_ticks
    then count_event (λ n. record n { wait_timeouts = scheduler_trace_counter_inc n.wait_timeouts })
        (count_wakeup (scheduler_enqueue_runnable p t wakeup (take_late t s)))
    else s

-- The loops over a list as it was at the start: the next task is read before a task leaves.
unfoldable pub wake_sleepers : Processor → List ℕ → Scheduler → Scheduler
wake_sleepers p [] s = s
wake_sleepers p (t ∷ list) s = wake_sleepers p list (wake_sleeper p t s)

unfoldable pub time_outs : Processor → List ℕ → Scheduler → Scheduler
time_outs p [] s = s
time_outs p (t ∷ list) s = time_outs p list (time_out p t s)

unfoldable pub scheduler_advance_timers : Processor → Scheduler → Scheduler
scheduler_advance_timers p s =
    let s' = wake_sleepers p s.sleeping_tasks s in time_outs p s'.blocked_tasks s'

-- `gdt_set_kernel_stack` and `paging_switch_space`
abbrev pub enter_task : Task → Scheduler → Scheduler
enter_task task s = record s { kernel_stack = task.kernel_stack_top; active_space = task.space }

-- The task goes on, if there is one that runs.
unfoldable pub stay_on : ℕ → ℕ → Scheduler → Option (ℕ × Scheduler)
stay_on c fallback_frame s = elim (cpu_at s c).current [
  | none ↦ none
  | some t ↦
      if has_state (task_at s t) running
      then some (fallback_frame, enter_task (task_at s t) s)
      else none
]

abbrev is_same : Option ℕ → ℕ → Bool
is_same none t = false
is_same (some u) t = u == t

unfoldable pub run_next : ℕ → ℕ → Scheduler → ℕ × Scheduler
run_next c t s =
    let task = record (task_at s t) { state = running; ticks_in_slice = 0 } in
    let switched = record s {
      tasks = set s.tasks t task;
      cpus = set s.cpus c (record (cpu_at s c) { current = some t });
    } in
    let counted =
      count_event
        (λ n. record n { context_switches = scheduler_trace_counter_inc n.context_switches })
        switched in
    (task.frame, enter_task task (if is_same (cpu_at s c).current t then switched else counted))

unfoldable pub scheduler_switch_to_task : ℕ → Option ℕ → ℕ → Scheduler → Option (ℕ × Scheduler)
scheduler_switch_to_task c none fallback_frame s = stay_on c fallback_frame s
scheduler_switch_to_task c (some t) fallback_frame s = some (run_next c t s)

abbrev pub save_frame : Option ℕ → ℕ → Scheduler → Scheduler
save_frame none frame s = s
save_frame (some t) frame s = put_task s t (record (task_at s t) { frame = frame })

-- Whether the processor has a current task, and it runs.
abbrev pub is_running : Scheduler → Option ℕ → Bool
is_running s none = false
is_running s (some t) = has_state (task_at s t) running

abbrev pub current_priority : Scheduler → Option ℕ → ℕ
current_priority s none = 0
current_priority s (some t) = (task_at s t).priority

abbrev pub requeue : Processor → ℕ → Option ℕ → Scheduler → Scheduler
requeue p c none s = s
requeue p c (some t) s = scheduler_cpu_enqueue_runnable p c t reschedule s

unfoldable pub pick_next : ℕ → ℕ → Scheduler → Option (ℕ × Scheduler)
pick_next c frame s =
    let (next, s') = scheduler_cpu_dequeue_next_runnable c s in
    scheduler_switch_to_task c next frame s'

unfoldable pub scheduler_schedule_cpu :
    Processor → ℕ → ℕ → Bool → Scheduler → Option (ℕ × Scheduler)
scheduler_schedule_cpu p c frame force_switch s =
    let current = (cpu_at s c).current in
    let saved = save_frame current frame (
      count_event
        (λ n. record n { schedule_events = scheduler_trace_counter_inc n.schedule_events }) s) in
    if is_running saved current
    then (if not force_switch
          && not (
              scheduler_cpu_has_higher_priority_runnable (cpu_at saved c)
                (current_priority saved current))
        then some (frame, saved)
        else pick_next c frame (requeue p c current saved))
    else pick_next c frame saved

-- The end of a tick for the task that runs.
unfoldable pub tick_task : Processor → ℕ → ℕ → ℕ → Scheduler → Option (ℕ × Scheduler)
tick_task p c t frame s =
    let task = task_at s t in
    let ticks = add32 task.ticks_in_slice 1 in
    let ticked = put_task s t (record task { ticks_in_slice = ticks }) in
    if leb (scheduler_priority_timeslice task.priority) ticks
      || scheduler_cpu_has_higher_priority_runnable (cpu_at ticked c) task.priority
    then scheduler_schedule_cpu p c frame true (
        count_event (λ n. record n { preemptions = scheduler_trace_counter_inc n.preemptions })
          ticked)
    else some (frame, put_task ticked t (record (task_at ticked t) { frame = frame }))

abbrev pub balance_if : Processor → Bool × Scheduler → Scheduler
balance_if p (true, s) = scheduler_balance_periodic p s
balance_if p (false, s) = s

unfoldable pub advance_tick : Processor → Scheduler → Scheduler
advance_tick p s = scheduler_advance_timers p (
    count_event (λ n. record n { timer_ticks = scheduler_trace_counter_inc n.timer_ticks })
      (record s { system_ticks = add32 s.system_ticks 1 }))

-- The processor that booted balances the load.
unfoldable pub balance_tick : Processor → ℕ → Scheduler → Scheduler
balance_tick p c s =
    if (cpu_at s c).id == s.boot_cpu_id then balance_if p (scheduler_should_balance_now p s) else s

unfoldable pub scheduler_on_timer_tick : Processor → ℕ → Scheduler → Option (ℕ × Scheduler)
scheduler_on_timer_tick p frame s =
    let ticked = advance_tick p s in
    let c = scheduler_current_cpu_state p ticked in
    let current = (cpu_at ticked c).current in
    let balanced = balance_tick p c ticked in
    elim current [
      | none ↦ scheduler_schedule_cpu p c frame true balanced
      | some t ↦
          if has_state (task_at balanced t) running
          then tick_task p c t frame balanced
          else scheduler_schedule_cpu p c frame true balanced
    ]

unfoldable pub scheduler_on_yield : Processor → ℕ → Scheduler → Option (ℕ × Scheduler)
scheduler_on_yield p frame s =
    let counted =
      count_event
        (λ n. record n { voluntary_yields = scheduler_trace_counter_inc n.voluntary_yields }) s in
    scheduler_schedule_cpu p (scheduler_current_cpu_state p counted) frame true counted
