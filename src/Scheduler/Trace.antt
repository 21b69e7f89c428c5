-- ===== src/Scheduler/Trace.antt =====
-- The counters and latency windows of kernel/kernel/scheduler.c, which saturate at the end of `uint64_t`.
use dfos.Base.{ℕ, ◌+◌, ◌-◌, ◌||◌, ltb, ◌==◌, if◌then◌else◌}

abbrev pub scheduler_u64_max : ℕ
scheduler_u64_max = 0xffffffffffffffff

-- scheduler_trace_counter_inc
unfoldable pub scheduler_trace_counter_inc : ℕ → ℕ
scheduler_trace_counter_inc counter = if counter == scheduler_u64_max then counter else counter + 1

pub record Counters : Type 0 where
  pub timer_ticks : ℕ
  pub schedule_events : ℕ
  pub context_switches : ℕ
  pub preemptions : ℕ
  pub voluntary_yields : ℕ
  pub wakeups : ℕ
  pub wait_calls : ℕ
  pub wait_timeouts : ℕ
  pub sleep_calls : ℕ
  pub task_creations : ℕ
  pub task_exits : ℕ
  pub priority_updates : ℕ
  pub load_balance_runs : ℕ
  pub load_balance_migrations : ℕ
  pub task_migrations : ℕ
  pub remote_wakeup_ipis : ℕ
  pub remote_reschedule_ipis : ℕ

pub record LatencyMetric : Type 0 where
  pub sample_count : ℕ
  pub total_ticks : ℕ
  pub min_ticks : ℕ
  pub max_ticks : ℕ

pub record Latency : Type 0 where
  pub runnable_wait_ticks : LatencyMetric
  pub sleep_overshoot_ticks : LatencyMetric
  pub wait_timeout_overshoot_ticks : LatencyMetric

unfoldable pub scheduler_trace_latency_reset_metric : LatencyMetric
scheduler_trace_latency_reset_metric = record {
  sample_count = 0;
  total_ticks = 0;
  min_ticks = 0;
  max_ticks = 0;
}

unfoldable pub scheduler_trace_latency_record : LatencyMetric → ℕ → LatencyMetric
scheduler_trace_latency_record metric ticks = record {
  min_ticks =
      if metric.sample_count == 0 || ltb ticks metric.min_ticks then ticks else metric.min_ticks;
  max_ticks = if ltb metric.max_ticks ticks then ticks else metric.max_ticks;
  sample_count =
      if ltb metric.sample_count scheduler_u64_max
      then metric.sample_count + 1
      else metric.sample_count;
  total_ticks =
      if ltb (scheduler_u64_max - ticks) metric.total_ticks
      then scheduler_u64_max
      else metric.total_ticks + ticks;
}

unfoldable pub reset_counters : Counters
reset_counters = record {
  timer_ticks = 0;
  schedule_events = 0;
  context_switches = 0;
  preemptions = 0;
  voluntary_yields = 0;
  wakeups = 0;
  wait_calls = 0;
  wait_timeouts = 0;
  sleep_calls = 0;
  task_creations = 0;
  task_exits = 0;
  priority_updates = 0;
  load_balance_runs = 0;
  load_balance_migrations = 0;
  task_migrations = 0;
  remote_wakeup_ipis = 0;
  remote_reschedule_ipis = 0;
}

unfoldable pub reset_latency : Latency
unfolding scheduler_trace_latency_reset_metric
reset_latency = record {
  runnable_wait_ticks = scheduler_trace_latency_reset_metric;
  sleep_overshoot_ticks = scheduler_trace_latency_reset_metric;
  wait_timeout_overshoot_ticks = scheduler_trace_latency_reset_metric;
}
