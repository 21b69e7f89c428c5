-- ===== src/Scheduler/Started.antt =====
-- What `scheduler_init` and `scheduler_configure_topology` of kernel/kernel/scheduler.c leave.
use dfos.Base.{
  ℕ, zero, suc, ◌+◌, Bool, true, false, ◌&&◌, [], ltb, leb, ◌==◌, if◌then◌else◌, Option, none, some,
  get_or, ◌≡◌, refl, sym, ap, one_of, ◌∙◌, arith,
}
use dfos.Scheduler.State.{
  Scheduler, ListKind, no_list, free_list, runnable_list, sleeping_list, blocked_list, zombie_list,
  no_task, running, task_at, has_state, has_kind, kind_value, task_reset,
}
use dfos.Scheduler.Topology.{
  TopologyConfig, scheduler_topology_default, is_refused, scheduler_has_live_tasks, any_live,
  scheduler_configure_topology, free_task, fresh_tasks, indices_from, cleared, if_configured,
  nodes_exist, scheduler_init,
}
use dfos.Scheduler.Placed.{IsPlaced, occurs, is_plain, list_in, one_if}
use dfos.Pmm.State.{Pmm}
use dfos.Pmm.Alloc.{pmm_configure_numa_topology}
use dfos.Scheduler.Configured.{
  IsCpu-configured, empty_queue, length-cpus_from, online_below, online_cpu,
}

-- The lists of a table without live tasks: the free ones are on the free list.
pub record Fresh (s : Scheduler) : Type 0 where
  pub listed :
      (k : ListKind) (t : ℕ)
      → is_plain k ≡ true
      → occurs (list_in s.free_tasks s.sleeping_tasks s.blocked_tasks s.zombie_tasks k) t
        ≡ one_if (has_kind (task_at s t) k)
  pub unqueued : (t : ℕ) → has_kind (task_at s t) runnable_list ≡ false
  pub idle : (t : ℕ) → has_state (task_at s t) running ≡ false

pub configure_topology-IsPlaced :
    (config : TopologyConfig) (s : Scheduler) (memory : Pmm)
    → Fresh s
    → is_refused config s ≡ false
    → IsPlaced (scheduler_configure_topology config s memory).1
unfolding scheduler_configure_topology is_refused occurs
configure_topology-IsPlaced config s memory f ok =
    one_of (λ (r : Bool × Scheduler × Pmm). IsPlaced r.1) (is_refused config s) (false, s, memory) _
      (λ h. absurd (ground (arith, h, ok)))
      (λ h. record {
        listed = f.listed;
        queued = λ c p t.
            ap (λ list. occurs list t) (empty_queue config c p) ∙ ground (arith, f.unqueued t);
        ready = λ t. (
          λ k. absurd (ground (arith, k, f.unqueued t)),
          λ k. absurd (ground (arith, k, f.idle t)),
        );
        shaped = λ c lt. IsCpu-configured config c (omega (arith, length-cpus_from config 0 8));
        sized = ground (arith, ok, length-cpus_from config 0 8);
        bounded = λ c on. online_below config c on (ground (arith, ok));
        booted = (
          ground (arith, ok),
          online_cpu config config.boot_cpu_id (ground (arith, ok)) ∙ ground (arith, ok),
        );
      })

get_or-fresh_tasks :
    (rounds t : ℕ)
    → get_or (fresh_tasks rounds) t no_task ≡ (if ltb t rounds then free_task else no_task)
unfolding fresh_tasks
get_or-fresh_tasks zero t = ground arith
get_or-fresh_tasks (suc rounds) zero = ground arith
get_or-fresh_tasks (suc rounds) (suc t) = get_or-fresh_tasks rounds t ∙ ground arith

occurs-indices_from :
    (t rounds u : ℕ) → occurs (indices_from t rounds) u ≡ one_if (leb t u && ltb u (t + rounds))
unfolding occurs indices_from
occurs-indices_from t zero u = ground arith
occurs-indices_from t (suc rounds) u = ground (arith, occurs-indices_from (t + 1) rounds u)

fresh_kind :
    (t : ℕ) (k : ListKind)
    → has_kind (get_or (fresh_tasks 32) t no_task) k
      ≡ (if ltb t 32 then 1 == kind_value k else 0 == kind_value k)
unfolding free_task task_reset
fresh_kind t k = ap (λ task. has_kind task k) (get_or-fresh_tasks 32 t) ∙ kind_of (ltb t 32)
  where
    kind_of :
        (test : Bool)
        → has_kind (if test then free_task else no_task) k
          ≡ (if test then 1 == kind_value k else 0 == kind_value k)
    kind_of true = refl
    kind_of false = refl

fresh_idle : (t : ℕ) → has_state (get_or (fresh_tasks 32) t no_task) running ≡ false
unfolding free_task task_reset
fresh_idle t = ap (λ task. has_state task running) (get_or-fresh_tasks 32 t) ∙ state_of (ltb t 32)
  where
    state_of : (test : Bool) → has_state (if test then free_task else no_task) running ≡ false
    state_of true = refl
    state_of false = refl

fresh_listed :
    (k : ListKind) (t : ℕ)
    → is_plain k ≡ true
    → occurs (list_in (indices_from 0 32) [] [] [] k) t
      ≡ one_if (has_kind (get_or (fresh_tasks 32) t no_task) k)
unfolding occurs
fresh_listed no_list t h = cc
fresh_listed free_list t h = ground (arith, occurs-indices_from 0 32 t, fresh_kind t free_list)
fresh_listed runnable_list t h = cc
fresh_listed sleeping_list t h = ground (arith, fresh_kind t sleeping_list)
fresh_listed blocked_list t h = ground (arith, fresh_kind t blocked_list)
fresh_listed zombie_list t h = ground (arith, fresh_kind t zombie_list)

-- The table that `scheduler_init` clears.
pub cleared-Fresh : (s : Scheduler) → Fresh (cleared s)
unfolding cleared
cleared-Fresh s = record {
  listed = fresh_listed;
  unqueued = λ t. ground (arith, fresh_kind t runnable_list);
  idle = fresh_idle;
}

-- Only memory that cannot be divided makes the start fail: that is the panic.
unfoldable pub IsStarted : Pmm → Option (Scheduler × Pmm) → Type 0
IsStarted memory none = (pmm_configure_numa_topology memory 1).0 ≡ false
IsStarted memory (some (s, memory')) = IsPlaced s

if_configured-IsStarted :
    (memory : Pmm) (r : Bool × Scheduler × Pmm)
    → r.0 ≡ (pmm_configure_numa_topology memory 1).0
    → IsPlaced r.1
    → IsStarted memory (if_configured r)
unfolding IsStarted
if_configured-IsStarted memory (true, s, memory') e v = v
if_configured-IsStarted memory (false, s, memory') e v = sym e

default_accepted : (s : Scheduler) → is_refused scheduler_topology_default (cleared s) ≡ false
unfolding is_refused cleared scheduler_topology_default scheduler_has_live_tasks any_live
    fresh_tasks free_task task_reset nodes_exist
default_accepted s = refl

answer :
    (config : TopologyConfig) (s : Scheduler) (memory : Pmm)
    → is_refused config s ≡ false
    → (scheduler_configure_topology config s memory).0
      ≡ (pmm_configure_numa_topology memory config.node_count).0
unfolding scheduler_configure_topology
answer config s memory ok =
    one_of
      (λ (r : Bool × Scheduler × Pmm).
        r.0 ≡ (pmm_configure_numa_topology memory config.node_count).0)
      (is_refused config s) (false, s, memory) _ (λ h. absurd (ground (arith, h, ok))) (λ h. refl)

-- Whatever the state before, the start leaves a state whose lists are right, and panics only if
-- the physical memory manager refuses one node.
pub scheduler_init-IsStarted :
    (s : Scheduler) (memory : Pmm) → IsStarted memory (scheduler_init s memory)
unfolding scheduler_init scheduler_topology_default
scheduler_init-IsStarted s memory =
    if_configured-IsStarted memory _
      (answer scheduler_topology_default (cleared s) memory (default_accepted s))
      (configure_topology-IsPlaced scheduler_topology_default (cleared s) memory (cleared-Fresh s)
        (default_accepted s))
