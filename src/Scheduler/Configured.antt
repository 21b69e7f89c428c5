-- ===== src/Scheduler/Configured.antt =====
-- The processors of a topology in kernel/kernel/scheduler.c.
use dfos.Base.{
  ℕ, zero, suc, ◌+◌, ◌≤◌, ◌<◌, Bool, true, false, ◌&&◌, List, [], ltb, if◌then◌else◌, get_or,
  length, ◌≡◌, refl, sym, ap, one_of, ◌∙◌, subst, arith,
}
use dfos.Scheduler.State.{Cpu, no_cpu, queue_at, scheduler_cpu_state_init}
use dfos.Scheduler.Topology.{TopologyConfig, cpus_from}
use dfos.Scheduler.Placed.{IsCpu}

no_queue : (id node : ℕ) (on : Bool) (p : ℕ) → queue_at (scheduler_cpu_state_init id node on) p ≡ []
unfolding scheduler_cpu_state_init
no_queue id node on zero = refl
no_queue id node on (suc zero) = refl
no_queue id node on (suc (suc zero)) = refl
no_queue id node on (suc (suc (suc zero))) = refl
no_queue id node on (suc (suc (suc (suc zero)))) = refl
no_queue id node on (suc (suc (suc (suc (suc p))))) = refl

-- The processor `c` of a configuration.
unfoldable configured_cpu : TopologyConfig → ℕ → Cpu
configured_cpu config c =
    if ltb c config.cpu_count
    then scheduler_cpu_state_init c (get_or config.cpu_to_node c 0)
        (get_or config.cpu_online c false)
    else scheduler_cpu_state_init c 0 false

get_or-cpus_from :
    (config : TopologyConfig) (base rounds c : ℕ)
    → c < rounds
    → get_or (cpus_from config base rounds) c no_cpu ≡ configured_cpu config (base + c)
unfolding cpus_from configured_cpu
get_or-cpus_from config base zero c lt = absurd (omega arith)
get_or-cpus_from config base (suc rounds) zero lt = ap (configured_cpu config) (omega arith)
get_or-cpus_from config base (suc rounds) (suc c) lt =
    get_or-cpus_from config (base + 1) rounds c (omega arith)
    ∙ ap (configured_cpu config) (omega arith)

get_or-cpus_from_none :
    (config : TopologyConfig) (base rounds c : ℕ)
    → rounds ≤ c
    → get_or (cpus_from config base rounds) c no_cpu ≡ no_cpu
unfolding cpus_from
get_or-cpus_from_none config base zero c le = refl
get_or-cpus_from_none config base (suc rounds) zero le = absurd (omega arith)
get_or-cpus_from_none config base (suc rounds) (suc c) le =
    get_or-cpus_from_none config (base + 1) rounds c (omega arith)

pub length-cpus_from :
    (config : TopologyConfig) (base rounds : ℕ) → length (cpus_from config base rounds) ≡ rounds
unfolding cpus_from
length-cpus_from config base zero = refl
length-cpus_from config base (suc rounds) = ap suc (length-cpus_from config (base + 1) rounds)

module _ (config : TopologyConfig) where
  abbrev cpus : List Cpu
  cpus = cpus_from config 0 8

  cpu_is : (c : ℕ) → c < 8 → get_or cpus c no_cpu ≡ configured_cpu config c
  cpu_is c lt = get_or-cpus_from config 0 8 c lt ∙ ap (configured_cpu config) (omega arith)

  pub IsCpu-configured : (c : ℕ) → c < 8 → IsCpu c (get_or cpus c no_cpu)
  unfolding IsCpu configured_cpu scheduler_cpu_state_init
  IsCpu-configured c lt = subst (IsCpu c) (sym (cpu_is c lt)) (set_up c)
    where
      set_up : (c : ℕ) → IsCpu c (configured_cpu config c)
      set_up c =
          one_of (IsCpu c) (ltb c config.cpu_count)
            (scheduler_cpu_state_init c (get_or config.cpu_to_node c 0)
              (get_or config.cpu_online c false))
            (scheduler_cpu_state_init c 0 false) (λ h. (refl, refl)) (λ h. (refl, refl))

  pub empty_queue : (c p : ℕ) → queue_at (get_or cpus c no_cpu) p ≡ []
  unfolding configured_cpu
  empty_queue c p =
      one_of (λ (b : Bool). queue_at (get_or cpus c no_cpu) p ≡ []) (ltb c 8) true false
        (λ h.
          ap (λ cpu. queue_at cpu p) (cpu_is c (ground (arith, h)))
          ∙ one_of (λ cpu. queue_at cpu p ≡ []) (ltb c config.cpu_count)
              (scheduler_cpu_state_init c (get_or config.cpu_to_node c 0)
                (get_or config.cpu_online c false))
              (scheduler_cpu_state_init c 0 false) (λ k. no_queue _ _ _ p) (λ k. no_queue _ _ _ p))
        (λ h. ap (λ cpu. queue_at cpu p) (get_or-cpus_from_none config 0 8 c (ground (arith, h))))

  pub online_cpu :
      (c : ℕ)
      → c < 8
      → (get_or cpus c no_cpu).online ≡ (ltb c config.cpu_count && get_or config.cpu_online c false)
  unfolding configured_cpu scheduler_cpu_state_init
  online_cpu c lt =
      ap (λ (cpu : Cpu). cpu.online) (cpu_is c lt) ∙ set_online (ltb c config.cpu_count)
    where
      set_online :
          (test : Bool)
          → (if test
              then scheduler_cpu_state_init c
                  (get_or config.cpu_to_node c 0)
                  (get_or config.cpu_online c false)
              else scheduler_cpu_state_init c 0 false).online
            ≡ (test && get_or config.cpu_online c false)
      set_online true = refl
      set_online false = refl

  pub online_below :
      (c : ℕ) → (get_or cpus c no_cpu).online ≡ true → config.cpu_count ≤ 8 → c < config.cpu_count
  online_below c on le =
      one_of (λ (b : Bool). c < config.cpu_count) (ltb c 8) true false
        (λ h. ground (arith, online_cpu c (ground (arith, h)), on))
        (λ h. absurd (
          ground (
            arith,
            on,
            ap (λ (cpu : Cpu). cpu.online) (get_or-cpus_from_none config 0 8 c (ground (arith, h))),
          )))
