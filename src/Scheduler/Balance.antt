-- ===== src/Scheduler/Balance.antt =====
-- The load balancer of kernel/kernel/scheduler.c.
use dfos.Base.{
  ℕ, zero, suc, ◌+◌, Bool, true, false, ◌||◌, not, List, [], ◌∷◌, Option, none, some, leb, ltb,
  ◌==◌, if◌then◌else◌, get_or, set, map,
}
use dfos.Base.Words.{add32, sub32}
use dfos.Scheduler.Select.{View, scheduler_invalid_cpu_id, scheduler_select_best_cpu_from_view}
use dfos.Scheduler.Trace.{scheduler_trace_counter_inc}
use dfos.Scheduler.State.{
  Scheduler, Processor, Cpu, task_at, cpu_at, queue_at, scheduler_cpu_load,
  scheduler_priority_count,
}
use dfos.Scheduler.Queues.{count_event, scheduler_migrate_runnable_task}

abbrev pub scheduler_balance_interval_ticks : ℕ
scheduler_balance_interval_ticks = 16

abbrev pub scheduler_balance_max_migrations : ℕ
scheduler_balance_max_migrations = 2

-- The body of the innermost loop: the processor the task went to, if it moved.
unfoldable pub try_task : Processor → Bool → View → Scheduler → ℕ → ℕ → Option (ℕ × Scheduler)
try_task p notify v s source t =
    let task = task_at s t in
    let source_id = (cpu_at s source).id in
    let target =
      scheduler_select_best_cpu_from_view v task.cpu_affinity_mask task.preferred_numa_node
        source_id in
    let (moved, s') = scheduler_migrate_runnable_task p source target t notify s in
    if ((target == scheduler_invalid_cpu_id || target == source_id)
        || leb (get_or v.cpu_load source 0) (add32 (get_or v.cpu_load target 0) 1))
      || ((not (get_or v.cpu_online target false) || not (cpu_at s target).online) || not moved)
    then none
    else some (target, s')

-- The tasks of one queue, in order.
unfoldable pub try_queue : Processor → Bool → View → Scheduler → ℕ → List ℕ → Option (ℕ × Scheduler)
try_queue p notify v s source [] = none
try_queue p notify v s source (t ∷ queue) = elim (try_task p notify v s source t) [
  | some moved ↦ some moved
  | none ↦ try_queue p notify v s source queue
]

-- The queues from the lowest priority up: `rounds` of them, the last being `rounds - 1`.
unfoldable pub try_priorities : Processor → Bool → View → Scheduler → ℕ → ℕ → Option (ℕ × Scheduler)
try_priorities p notify v s source zero = none
try_priorities p notify v s source (suc rounds) =
    elim (try_queue p notify v s source (queue_at (cpu_at s source) rounds)) [
      | some moved ↦ some moved
      | none ↦ try_priorities p notify v s source rounds
    ]

-- The processors from `source` on. The answer names both ends of the move.
unfoldable pub try_sources :
    Processor → Bool → View → Scheduler → ℕ → ℕ → Option (ℕ × ℕ × Scheduler)
try_sources p notify v s source zero = none
try_sources p notify v s source (suc rounds) =
    let cpu = cpu_at s source in
    let skip =
      (not (get_or v.cpu_online source false) || not cpu.online) || cpu.runnable_count == 0 in
    elim (if skip then none else try_priorities p notify v s source scheduler_priority_count) [
      | some (target, s') ↦ some (source, target, s')
      | none ↦ try_sources p notify v s (source + 1) rounds
    ]

-- One less at the source and one more at the target.
unfoldable pub move_load : View → ℕ → ℕ → View
move_load v source target =
    let after = set v.cpu_load source (sub32 (get_or v.cpu_load source 0) 1) in
    record v { cpu_load = set after target (add32 (get_or after target 0) 1) }

unfoldable pub scheduler_balance_once_from_view :
    Processor → Bool → View → Scheduler → Option (View × Scheduler)
scheduler_balance_once_from_view p notify v s =
    elim (if leb v.cpu_count 1 then none else try_sources p notify v s 0 v.cpu_count) [
      | none ↦ none
      | some (source, target, s') ↦ some (move_load v source target, s')
    ]

unfoldable pub scheduler_should_balance_now : Processor → Scheduler → Bool × Scheduler
scheduler_should_balance_now p s =
    if ((not s.bootstrapped || leb s.configured_cpu_count 1) || not p.smp_available)
      || ltb (sub32 s.system_ticks s.last_balance_tick) scheduler_balance_interval_ticks
    then (false, s)
    else (true, record s { last_balance_tick = s.system_ticks })

-- The loads of the processors from `cpu` on.
unfoldable pub loads_from : Scheduler → ℕ → ℕ → List ℕ
loads_from s cpu zero = []
loads_from s cpu (suc rounds) = scheduler_cpu_load s cpu ∷ loads_from s (cpu + 1) rounds

-- The arrays that the callers fill from the state.
unfoldable pub view_of : Scheduler → View
view_of s = record {
  cpu_count = s.configured_cpu_count;
  cpu_online = map (λ (c : Cpu). c.online) s.cpus;
  cpu_to_node = map (λ (c : Cpu). c.numa_node) s.cpus;
  cpu_load = loads_from s 0 s.configured_cpu_count;
}

unfoldable pub migrations : Processor → ℕ → View → Scheduler → Scheduler
migrations p zero v s = s
migrations p (suc rounds) v s = elim (scheduler_balance_once_from_view p true v s) [
  | none ↦ s
  | some (v', s') ↦ migrations p rounds v' (
      count_event
        (λ n. record n {
          load_balance_migrations = scheduler_trace_counter_inc n.load_balance_migrations;
        })
        s')
]

unfoldable pub scheduler_balance_periodic : Processor → Scheduler → Scheduler
scheduler_balance_periodic p s =
    let counted =
      count_event
        (λ n. record n { load_balance_runs = scheduler_trace_counter_inc n.load_balance_runs }) s in
    migrations p scheduler_balance_max_migrations (view_of counted) counted
