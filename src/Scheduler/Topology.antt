-- ===== src/Scheduler/Topology.antt =====
-- The topology and the start in kernel/kernel/scheduler.c.
use dfos.Base.{
  ℕ, zero, suc, ◌+◌, Bool, true, false, ◌&&◌, ◌||◌, not, List, [], ◌∷◌, Option, none, some, leb,
  ltb, ◌==◌, if◌then◌else◌, get_or,
}
use dfos.Scheduler.Trace.{reset_counters, reset_latency}
use dfos.Scheduler.State.{
  Scheduler, Task, Cpu, unused, free_list, has_state, task_reset, scheduler_cpu_state_init,
  scheduler_max_threads, scheduler_max_cpus, scheduler_max_numa_nodes,
}
use dfos.Pmm.State.{Pmm}
use dfos.Pmm.Alloc.{pmm_configure_numa_topology}

pub record TopologyConfig : Type 0 where
  pub cpu_count : ℕ
  pub boot_cpu_id : ℕ
  pub node_count : ℕ
  pub cpu_to_node : List ℕ
  pub cpu_online : List Bool

unfoldable pub scheduler_topology_default : TopologyConfig
scheduler_topology_default = record {
  cpu_count = 1;
  boot_cpu_id = 0;
  node_count = 1;
  cpu_to_node = 0 ∷ 0 ∷ 0 ∷ 0 ∷ 0 ∷ 0 ∷ 0 ∷ 0 ∷ [];
  cpu_online = true ∷ false ∷ false ∷ false ∷ false ∷ false ∷ false ∷ false ∷ [];
}

unfoldable pub any_live : List Task → Bool
any_live [] = false
any_live (task ∷ tasks) = not (has_state task unused) || any_live tasks

unfoldable pub scheduler_has_live_tasks : Scheduler → Bool
scheduler_has_live_tasks s = any_live s.tasks

-- Whether the processors from `cpu` on name nodes that exist.
unfoldable pub nodes_exist : TopologyConfig → ℕ → ℕ → Bool
nodes_exist config cpu zero = true
nodes_exist config cpu (suc rounds) =
    ltb (get_or config.cpu_to_node cpu 0) config.node_count && nodes_exist config (cpu + 1) rounds

-- All `scheduler_max_cpus` processors, from `cpu` on.
unfoldable pub cpus_from : TopologyConfig → ℕ → ℕ → List Cpu
cpus_from config cpu zero = []
cpus_from config cpu (suc rounds) =
    (if ltb cpu config.cpu_count
      then scheduler_cpu_state_init cpu (get_or config.cpu_to_node cpu 0)
          (get_or config.cpu_online cpu false)
      else scheduler_cpu_state_init cpu 0 false)
    ∷ cpus_from config (cpu + 1) rounds

-- The guards of the configuration. A boot processor online makes the count of those online positive.
unfoldable pub is_refused : TopologyConfig → Scheduler → Bool
is_refused config s =
    ((s.bootstrapped || scheduler_has_live_tasks s)
      || ((config.cpu_count == 0 || ltb scheduler_max_cpus config.cpu_count)
          || (config.node_count == 0 || ltb scheduler_max_numa_nodes config.node_count)))
    || ((leb config.cpu_count config.boot_cpu_id || not (nodes_exist config 0 config.cpu_count))
        || not (get_or config.cpu_online config.boot_cpu_id false))

unfoldable pub scheduler_configure_topology :
    TopologyConfig → Scheduler → Pmm → Bool × Scheduler × Pmm
scheduler_configure_topology config s memory =
    let (configured, memory') = pmm_configure_numa_topology memory config.node_count in
    if is_refused config s then (false, s, memory) else (
      configured,
      record s {
        configured_cpu_count = config.cpu_count;
        configured_node_count = config.node_count;
        boot_cpu_id = config.boot_cpu_id;
        cpus = cpus_from config 0 scheduler_max_cpus;
      },
      memory',
    )

-- The tasks and the free list after the loop of `scheduler_init`, from index `t` on.
unfoldable pub free_task : Task
unfolding task_reset
free_task = record (task_reset 0) { list_kind = free_list }

unfoldable pub fresh_tasks : ℕ → List Task
fresh_tasks zero = []
fresh_tasks (suc rounds) = free_task ∷ fresh_tasks rounds

unfoldable pub indices_from : ℕ → ℕ → List ℕ
indices_from t zero = []
indices_from t (suc rounds) = t ∷ indices_from (t + 1) rounds

-- The processors, the kernel stack and the address space are those there were.
unfoldable pub cleared : Scheduler → Scheduler
cleared s = record s {
  tasks = fresh_tasks scheduler_max_threads;
  free_tasks = indices_from 0 scheduler_max_threads;
  sleeping_tasks = [];
  blocked_tasks = [];
  zombie_tasks = [];
  bootstrapped = false;
  system_ticks = 0;
  next_task_id = 1;
  last_balance_tick = 0;
  configured_cpu_count = 0;
  configured_node_count = 0;
  boot_cpu_id = 0;
  counters = reset_counters;
  latency = reset_latency;
}

abbrev pub if_configured : Bool × Scheduler × Pmm → Option (Scheduler × Pmm)
if_configured (true, s, memory) = some (s, memory)
if_configured (false, s, memory) = none

-- `none` is a panic.
unfoldable pub scheduler_init : Scheduler → Pmm → Option (Scheduler × Pmm)
scheduler_init s memory =
    if_configured (scheduler_configure_topology scheduler_topology_default (cleared s) memory)
