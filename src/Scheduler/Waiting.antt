-- ===== src/Scheduler/Waiting.antt =====
-- Sleeping, waiting, waking and ending in kernel/kernel/scheduler.c.
use dfos.Base.{
  ℕ, zero, suc, ◌+◌, ◌-◌, Bool, true, false, ◌&&◌, ◌||◌, not, List, [], ◌∷◌, ◌++◌, Option, none,
  some, leb, ltb, ◌==◌, if◌then◌else◌, set, length,
}
use dfos.Base.Words.{add32, sub32}
use dfos.Scheduler.Select.{uint_max}
use dfos.Scheduler.Trace.{scheduler_trace_counter_inc}
use dfos.Scheduler.State.{
  Scheduler, Processor, sleeping, blocked, zombie, no_list, sleeping_list, blocked_list,
  zombie_list, task_at, cpu_at, has_state, has_kind, without, scheduler_wait_forever,
  scheduler_current_task,
}
use dfos.Scheduler.Queues.{wakeup, scheduler_enqueue_runnable, scheduler_release_task_slot}
use dfos.Scheduler.Dispatch.{count_wakeup, scheduler_on_yield}
use dfos.Scheduler.Tasks.{Release, free_pages, destroy_process_space, scheduler_find_task_by_id}

-- What `scheduler_sleep` does under its lock, to the current task.
unfoldable pub begin_sleep : ℕ → ℕ → Scheduler → Scheduler
begin_sleep ticks t s = record s {
  counters = record s.counters { sleep_calls = scheduler_trace_counter_inc s.counters.sleep_calls };
  tasks = set s.tasks t (record (task_at s t) {
    wakeup_tick = add32 s.system_ticks ticks;
    state = sleeping;
    list_kind = sleeping_list;
  });
  sleeping_tasks = s.sleeping_tasks ++ (t ∷ []);
}

-- The yield's interrupt comes with the frame that it saved. `none` is a panic.
unfoldable pub scheduler_sleep : Processor → ℕ → ℕ → Scheduler → Option (ℕ × Scheduler)
scheduler_sleep p ticks frame s =
    if ticks == 0 then scheduler_on_yield p frame s else elim (scheduler_current_task p s) [
      | none ↦ some (frame, s)
      | some t ↦ scheduler_on_yield p frame (begin_sleep ticks t s)
    ]

-- The tick at which a wait ends, 0 if never.
unfoldable pub deadline : Scheduler → ℕ → ℕ
deadline s timeout_ticks =
    if timeout_ticks == scheduler_wait_forever then 0 else add32 s.system_ticks timeout_ticks

unfoldable pub begin_wait : ℕ → ℕ → ℕ → Scheduler → Scheduler
begin_wait wait_channel timeout_ticks t s = record s {
  counters = record s.counters { wait_calls = scheduler_trace_counter_inc s.counters.wait_calls };
  tasks = set s.tasks t (record (task_at s t) {
    wait_channel = wait_channel;
    wait_result = false;
    wakeup_tick = deadline s timeout_ticks;
    state = blocked;
    list_kind = blocked_list;
  });
  blocked_tasks = s.blocked_tasks ++ (t ∷ []);
}

-- Up to the yield: the task that waits, if one does. Its answer is its `wait_result` when it runs again.
unfoldable pub scheduler_wait_channel : Processor → ℕ → ℕ → Scheduler → Option ℕ × Scheduler
scheduler_wait_channel p wait_channel timeout_ticks s = elim (scheduler_current_task p s) [
  | none ↦ (none, s)
  | some t ↦
      if wait_channel == 0 || timeout_ticks == 0
      then (none, s)
      else (some t, begin_wait wait_channel timeout_ticks t s)
]

unfoldable pub take_waiter : ℕ → Scheduler → Scheduler
take_waiter t s = record s {
  blocked_tasks = without s.blocked_tasks t;
  tasks = set s.tasks t (record (task_at s t) {
    list_kind = no_list;
    wait_channel = 0;
    wait_result = true;
    wakeup_tick = 0;
  });
}

unfoldable pub wake_task : Processor → ℕ → Scheduler → Scheduler
wake_task p t s = count_wakeup (scheduler_enqueue_runnable p t wakeup (take_waiter t s))

-- The loop over the blocked tasks as they were at the start, with the number still to wake.
unfoldable pub wake_waiters : Processor → ℕ → List ℕ → ℕ → Scheduler → ℕ × Scheduler
wake_waiters p wait_channel [] limit s = (0, s)
wake_waiters p wait_channel (t ∷ list) limit s =
    elim ((task_at s t).wait_channel == wait_channel && ltb 0 limit) [
      | true ↦
          let (woke, s') = wake_waiters p wait_channel list (limit - 1) (wake_task p t s) in
          (woke + 1, s')
      | false ↦ wake_waiters p wait_channel list limit s
    ]

unfoldable pub scheduler_wake_channel : Processor → ℕ → ℕ → Scheduler → ℕ × Scheduler
scheduler_wake_channel p wait_channel max_count s =
    let limit = if max_count == 0 then uint_max else max_count in
    if wait_channel == 0 then (0, s) else wake_waiters p wait_channel s.blocked_tasks limit s

-- Whether a processor from `cpu` on runs the task.
unfoldable pub is_current_from : Scheduler → ℕ → ℕ → ℕ → Bool
is_current_from s t cpu zero = false
is_current_from s t cpu (suc rounds) =
    ((cpu_at s cpu).online && elim (cpu_at s cpu).current [ none ↦ false | some u ↦ u == t ])
    || is_current_from s t (cpu + 1) rounds

unfoldable pub scheduler_task_is_current_on_any_cpu_locked : Scheduler → ℕ → Bool
scheduler_task_is_current_on_any_cpu_locked s t = is_current_from s t 0 s.configured_cpu_count

-- The stack and the space of the task, if it could be detached.
unfoldable pub scheduler_detach_zombie_task_locked : ℕ → Scheduler → Option (ℕ × ℕ) × Scheduler
scheduler_detach_zombie_task_locked t s =
    let task = task_at s t in
    if (not (has_state task zombie) || not (has_kind task zombie_list))
      || scheduler_task_is_current_on_any_cpu_locked s t
    then (none, s)
    else (
      some (task.stack_base, task.space),
      scheduler_release_task_slot t (record s { zombie_tasks = without s.zombie_tasks t }),
    )

-- The calls of paging; `kernel_space` is `paging_kernel_space()`.
unfoldable pub scheduler_cleanup_reaped_resources : ℕ → ℕ × ℕ → List Release
scheduler_cleanup_reaped_resources kernel_space (stack_base, space) =
    (if stack_base == 0 then [] else free_pages stack_base ∷ [])
    ++ (if space == 0 || space == kernel_space then [] else destroy_process_space space ∷ [])

-- The first zombie of a list that can be detached.
unfoldable pub detach_first : List ℕ → Scheduler → Option (ℕ × ℕ) × Scheduler
detach_first [] s = (none, s)
detach_first (t ∷ list) s =
    let (found, s') = scheduler_detach_zombie_task_locked t s in
    elim found [ some resources ↦ (some resources, s') | none ↦ detach_first list s ]

-- `fuel` bounds the rounds: no more than the zombies there are, and one that finds none.
unfoldable pub reap_from : ℕ → ℕ → ℕ → Scheduler → ℕ × List Release × Scheduler
reap_from kernel_space limit zero s = (0, [], s)
reap_from kernel_space limit (suc fuel) s =
    let (found, s') = detach_first s.zombie_tasks s in
    elim (if ltb 0 limit then found else none) [
      | none ↦ (0, [], s)
      | some resources ↦
          let (reaped, released, t) = reap_from kernel_space (limit - 1) fuel s' in
          (reaped + 1, scheduler_cleanup_reaped_resources kernel_space resources ++ released, t)
    ]

-- Under the first lock of `scheduler_exit_current`.
unfoldable pub begin_exit : ℕ → Scheduler → Scheduler
begin_exit t s = record s {
  counters = record s.counters { task_exits = scheduler_trace_counter_inc s.counters.task_exits };
  tasks = set s.tasks t (record (task_at s t) { state = zombie; list_kind = zombie_list });
  zombie_tasks = s.zombie_tasks ++ (t ∷ []);
}

-- With the wake-up of all that join, and the yield. `none` is a panic.
unfoldable pub scheduler_exit_current : Processor → ℕ → ℕ → Scheduler → Option (ℕ × Scheduler)
scheduler_exit_current p join_token frame s = elim (scheduler_current_task p s) [
  | none ↦ none
  | some t ↦ scheduler_on_yield p frame (scheduler_wake_channel p join_token 0 (begin_exit t s)).1
]

unfoldable pub scheduler_current_task_id : Processor → Scheduler → ℕ
scheduler_current_task_id p s = elim (scheduler_current_task p s) [
  | none ↦ 0
  | some t ↦ (task_at s t).id
]

-- One round of `scheduler_join_task` under its lock: what the caller does next.
pub data JoinStep : Type 0 where
  answer : Bool → JoinStep
  reaped : List Release → JoinStep
  yield_again : JoinStep
  wait_for : ℕ → JoinStep

unfoldable pub join_round : ℕ → ℕ → ℕ → ℕ → Scheduler → JoinStep × Scheduler
join_round kernel_space task_id timeout_ticks start_tick s =
    let forever = timeout_ticks == scheduler_wait_forever in
    let elapsed = sub32 s.system_ticks start_tick in
    let late = not forever && leb timeout_ticks elapsed in
    elim (scheduler_find_task_by_id s task_id) [
      | none ↦ (answer false, s)
      | some t ↦
          let (found, s') = scheduler_detach_zombie_task_locked t s in
          if has_state (task_at s t) zombie
          then elim found [
            | some resources ↦
                (reaped (scheduler_cleanup_reaped_resources kernel_space resources), s')
            | none ↦ (if late then answer false else yield_again, s)
          ]
          else (
            if late
                then answer false
                else wait_for (if forever then scheduler_wait_forever else timeout_ticks - elapsed),
            s,
          )
    ]

unfoldable pub scheduler_reap_zombies : ℕ → ℕ → Scheduler → ℕ × List Release × Scheduler
scheduler_reap_zombies kernel_space max_count s =
    reap_from kernel_space (if max_count == 0 then uint_max else max_count)
      (length s.zombie_tasks + 1) s
