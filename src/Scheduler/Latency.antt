-- ===== src/Scheduler/Latency.antt =====
-- The latency metrics of kernel/kernel/scheduler.c summarise their samples.
use dfos.Base.{
  ℕ, ◌+◌, ◌^◌, ◌≤◌, ◌<◌, Bool, true, false, ◌||◌, List, [], ◌∷◌, ltb, ◌==◌, if◌then◌else◌, length,
  ◌≡◌, refl, one_of, arith, ◌⊎◌, inl,
}
use dfos.Scheduler.Trace.{
  LatencyMetric, scheduler_u64_max, scheduler_trace_latency_reset_metric,
  scheduler_trace_latency_record,
}
use dfos.Scheduler.Placed.{occurs}

-- The metric after these samples, the last one first.
unfoldable pub recorded : List ℕ → LatencyMetric
recorded [] = scheduler_trace_latency_reset_metric
recorded (ticks ∷ samples) = scheduler_trace_latency_record (recorded samples) ticks

unfoldable pub sum : List ℕ → ℕ
sum [] = 0
sum (ticks ∷ samples) = ticks + sum samples

unfoldable pub Below : ℕ → List ℕ → Type 0
Below bound [] = 0 ≤ 0
Below bound (ticks ∷ samples) = (ticks < bound) × Below bound samples

-- The number is the value, or the greatest of 64 bits if the value is larger.
abbrev pub Saturated : ℕ → ℕ → Type 0
Saturated value n =
    ((value ≤ scheduler_u64_max) × (n ≡ value))
    ⊎ ((scheduler_u64_max < value) × (n ≡ scheduler_u64_max))

pub record Summary (samples : List ℕ) (metric : LatencyMetric) : Type 0 where
  pub counted : Saturated (length samples) metric.sample_count
  pub total : Saturated (sum samples) metric.total_ticks
  pub least : (t : ℕ) → 0 < occurs samples t → metric.min_ticks ≤ t
  pub greatest : (t : ℕ) → 0 < occurs samples t → t ≤ metric.max_ticks
  pub fresh : length samples ≡ 0 → metric.max_ticks ≡ 0
  pub met :
      (0 < length samples)
      → (0 < occurs samples metric.min_ticks) × (0 < occurs samples metric.max_ticks)

occurs-length : (samples : List ℕ) (t : ℕ) → occurs samples t ≤ length samples
unfolding occurs
occurs-length [] t = omega arith
occurs-length (ticks ∷ samples) t = ground (arith, occurs-length samples t)

Summary-record :
    (samples : List ℕ) (metric : LatencyMetric) (ticks : ℕ)
    → ticks < 2 ^ 32
    → Summary samples metric
    → Summary (ticks ∷ samples) (scheduler_trace_latency_record metric ticks)
unfolding scheduler_trace_latency_record sum occurs
Summary-record samples metric ticks small h = record {
  counted = ground (arith, h.counted);
  total = ground (arith, h.total, small);
  least = λ t k. ground (arith, k, h.least t, h.counted, occurs-length samples t);
  greatest = λ t k. ground (arith, k, h.greatest t);
  fresh = λ k. absurd (omega (arith, k));
  met = λ k. (
    one_of (λ low. 0 < (if ticks == low then 1 else 0) + occurs samples low)
        (metric.sample_count == 0 || ltb ticks metric.min_ticks) ticks metric.min_ticks
        (λ l. ground arith) (λ l. omega (arith, (h.met (ground (arith, h.counted, l))).0)),
    one_of (λ high. 0 < (if ticks == high then 1 else 0) + occurs samples high)
        (ltb metric.max_ticks ticks) ticks metric.max_ticks (λ l. ground arith)
        (λ l.
          one_of
            (λ (b : Bool).
              0 < (if ticks == metric.max_ticks then 1 else 0) + occurs samples metric.max_ticks)
            (length samples == 0) true false (λ m. ground (arith, h.fresh (ground (arith, m)), l))
            (λ m. omega (arith, (h.met (ground (arith, m))).1))),
  );
}

-- After 32-bit samples from the reset, a metric has their number and their sum, or the greatest
-- 64-bit number if that is less, and its least and greatest are bounds of the samples that are
-- themselves samples if there is one.
pub recorded-Summary :
    (samples : List ℕ) → Below (2 ^ 32) samples → Summary samples (recorded samples)
unfolding recorded Below sum occurs scheduler_trace_latency_reset_metric
recorded-Summary [] h = record {
  counted = inl (omega arith, refl);
  total = inl (omega arith, refl);
  least = λ t k. absurd (omega (arith, k));
  greatest = λ t k. absurd (omega (arith, k));
  fresh = λ k. refl;
  met = λ k. absurd (omega (arith, k));
}
recorded-Summary (ticks ∷ samples) h =
    Summary-record samples (recorded samples) ticks h.0 (recorded-Summary samples h.1)
