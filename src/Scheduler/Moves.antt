-- ===== src/Scheduler/Moves.antt =====
-- How the run queues of kernel/kernel/scheduler.c change when one task joins or leaves.
use dfos.Base.{
  ℕ, ◌+◌, ◌-◌, ◌<◌, Bool, true, false, ◌&&◌, List, [], ◌∷◌, ◌++◌, ◌==◌, if◌then◌else◌, get_or, set,
  length, get_or-set_self, get_or-set_ne, ◌≡◌, refl, sym, ap, ◌∙◌, subst, arith, get_or-set,
}
use native.Mathlib.Decide.{ℕ_discrete}
use dfos.Scheduler.State.{
  Cpu, ListKind, no_list, free_list, runnable_list, sleeping_list, blocked_list, zombie_list,
  no_cpu, queue_at, kind_value, without,
}
use dfos.Scheduler.Queues.{push_runnable, drop_runnable}
use dfos.Scheduler.Placed.{occurs, occurs-append, occurs-without, IsCpu, is_plain, one_if}

pub not_plain :
    (k : ListKind)
    → is_plain k ≡ true
    → ((kind_value k == 0) ≡ false) × ((kind_value k == 2) ≡ false)
not_plain no_list h = cc
not_plain free_list h = (refl, refl)
not_plain runnable_list h = cc
not_plain sleeping_list h = (refl, refl)
not_plain blocked_list h = (refl, refl)
not_plain zombie_list h = (refl, refl)

module _ (cpus : List Cpu) (c : ℕ) (here : c < length cpus) where
  abbrev at : ℕ → Cpu
  at c' = get_or cpus c' no_cpu

  -- A processor with one queue exchanged, read at any index.
  occurs-set :
      (cpu : Cpu) (priority : ℕ) (queue : List ℕ)
      → priority < length (at c).runnable
      → cpu.runnable ≡ set (at c).runnable priority queue
      → (c' p u : ℕ)
      → occurs (queue_at (get_or (set cpus c cpu) c' no_cpu) p) u
        ≡ (if c == c' && priority == p then occurs queue u else occurs (queue_at (at c') p) u)
  occurs-set cpu priority queue lt e c' p u = elim (ℕ_discrete c c') [
    | yes same ↦
        rw
          (
            ← same,
            get_or-set_self cpus c cpu no_cpu here,
            e,
            get_or-set (at c).runnable priority p queue [] lt,
          )
          (chosen (priority == p) (c == c) (ground arith))
    | no other ↦ rw (get_or-set_ne cpus c c' cpu no_cpu other) (elsewhere (ground (arith, other)))
  ]
    where
      chosen :
          (test same : Bool)
          → same ≡ true
          → occurs (if test then queue else queue_at (at c) p) u
            ≡ (if same && test then occurs queue u else occurs (queue_at (at c) p) u)
      chosen true same h = ground arith
      chosen false same h = ground arith

      elsewhere :
          (c == c') ≡ false
          → occurs (queue_at (at c') p) u
            ≡ (if c == c' && priority == p then occurs queue u else occurs (queue_at (at c') p) u)
      elsewhere h = ground (arith, h)

  same_queue :
      (c' priority p u : ℕ)
      → (c == c' && priority == p) ≡ true
      → occurs (queue_at (at c) priority) u ≡ occurs (queue_at (at c') p) u
  same_queue c' priority p u h =
      let e : c ≡ c' = ground (arith, h) in
      let f : priority ≡ p = ground (arith, h) in
      ap (λ w. occurs (queue_at (at w) priority) u) e ∙ ap (λ w. occurs (queue_at (at c') w) u) f

  pub occurs-push :
      (priority t : ℕ)
      → priority < length (at c).runnable
      → (c' p u : ℕ)
      → occurs (queue_at (get_or (set cpus c (push_runnable (at c) priority t)) c' no_cpu) p) u
        ≡ occurs (queue_at (at c') p) u + one_if ((c == c' && priority == p) && t == u)
  unfolding push_runnable
  occurs-push priority t lt c' p u =
      occurs-set (push_runnable (at c) priority t) priority (queue_at (at c) priority ++ (t ∷ []))
        lt refl c' p u
      ∙ ground (arith, occurs-append (queue_at (at c) priority) t u, same_queue c' priority p u)

  pub occurs-drop :
      (priority t : ℕ)
      → priority < length (at c).runnable
      → (c' p u : ℕ)
      → occurs (queue_at (get_or (set cpus c (drop_runnable (at c) priority t)) c' no_cpu) p) u
        ≡ occurs (queue_at (at c') p) u - one_if ((c == c' && priority == p) && t == u)
  unfolding drop_runnable
  occurs-drop priority t lt c' p u =
      occurs-set (drop_runnable (at c) priority t) priority (without (queue_at (at c) priority) t)
        lt refl c' p u
      ∙ ground (arith, occurs-without (queue_at (at c) priority) t u, same_queue c' priority p u)

  -- Only the queues of that processor change.
  pub online-set :
      (cpu : Cpu)
      → cpu.online ≡ (at c).online
      → (c' : ℕ) → (get_or (set cpus c cpu) c' no_cpu).online ≡ (at c').online
  online-set cpu e c' = elim (ℕ_discrete c c') [
    | yes same ↦ rw (← same, get_or-set_self cpus c cpu no_cpu here) e
    | no other ↦ rw (get_or-set_ne cpus c c' cpu no_cpu other) refl
  ]

  pub current-set :
      (cpu : Cpu)
      → cpu.current ≡ (at c).current
      → (c' : ℕ) → (get_or (set cpus c cpu) c' no_cpu).current ≡ (at c').current
  current-set cpu e c' = elim (ℕ_discrete c c') [
    | yes same ↦ rw (← same, get_or-set_self cpus c cpu no_cpu here) e
    | no other ↦ rw (get_or-set_ne cpus c c' cpu no_cpu other) refl
  ]

  pub IsCpu-set :
      (cpu : Cpu)
      → (IsCpu c (at c) → IsCpu c cpu)
      → (c' : ℕ) → IsCpu c' (at c')
      → IsCpu c' (get_or (set cpus c cpu) c' no_cpu)
  IsCpu-set cpu keep c' h = elim (ℕ_discrete c c') [
    | yes same ↦
        subst (λ w. IsCpu w (get_or (set cpus c cpu) w no_cpu)) same
          (rw (get_or-set_self cpus c cpu no_cpu here)
            (keep (subst (λ w. IsCpu w (at w)) (sym same) h)))
    | no other ↦ rw (get_or-set_ne cpus c c' cpu no_cpu other) h
  ]
