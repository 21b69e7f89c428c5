-- ===== src/Scheduler/Placed.antt =====
-- The invariant of the task lists of kernel/kernel/scheduler.c: every task is on the list that its
-- `list_kind` names, once, and on no other.
use dfos.Base.{
  ℕ, ◌+◌, ◌-◌, ◌≤◌, ◌<◌, Bool, true, false, ◌&&◌, List, [], ◌∷◌, ◌++◌, ◌==◌, if◌then◌else◌, get_or,
  length, ◌≡◌, ◌≢◌, sym, ap, ◌∙◌, subst, arith,
}
use native.Mathlib.Decide.{ℕ_discrete}
use dfos.Scheduler.State.{
  Scheduler, Task, Cpu, ListKind, no_list, free_list, runnable_list, sleeping_list, blocked_list,
  zombie_list, no_task, no_cpu, runnable, running, task_at, cpu_at, queue_at, has_state, has_kind,
  without,
}

-- How often a task stands on a list.
unfoldable pub occurs : List ℕ → ℕ → ℕ
occurs [] t = 0
occurs (u ∷ list) t = (if u == t then 1 else 0) + occurs list t

pub occurs-append :
    (list : List ℕ) (t u : ℕ)
    → occurs (list ++ (t ∷ [])) u ≡ occurs list u + (if t == u then 1 else 0)
unfolding occurs
occurs-append [] t u = omega arith
occurs-append (v ∷ list) t u = omega (arith, occurs-append list t u)

pub occurs-without :
    (list : List ℕ) (t u : ℕ)
    → occurs (without list t) u ≡ occurs list u - (if t == u then 1 else 0)
unfolding occurs without
occurs-without [] t u = ground arith
occurs-without (v ∷ list) t u = ground (arith, occurs-without list t u)

-- The lists other than the run queues.
abbrev pub list_in : List ℕ → List ℕ → List ℕ → List ℕ → ListKind → List ℕ
list_in free sleeping blocked zombie no_list = []
list_in free sleeping blocked zombie free_list = free
list_in free sleeping blocked zombie runnable_list = []
list_in free sleeping blocked zombie sleeping_list = sleeping
list_in free sleeping blocked zombie blocked_list = blocked
list_in free sleeping blocked zombie zombie_list = zombie

abbrev pub list_of : Scheduler → ListKind → List ℕ
list_of s k = list_in s.free_tasks s.sleeping_tasks s.blocked_tasks s.zombie_tasks k

abbrev pub is_plain : ListKind → Bool
is_plain no_list = false
is_plain runnable_list = false
is_plain _ = true

-- Whether the task belongs in this run queue.
abbrev pub in_queue : Task → ℕ → ℕ → Bool
in_queue task c priority =
    has_kind task runnable_list && (task.assigned_cpu == c && task.priority == priority)

abbrev pub one_if : Bool → ℕ
one_if test = if test then 1 else 0

-- A queued task can be run: its state, priority and processor fit. A running task is on no list.
abbrev pub Ready : List Cpu → ℕ → Task → Type 0
Ready cpus count task =
    (has_kind task runnable_list ≡ true
      → (has_state task runnable ≡ true)
        × (task.priority < 5)
        × (task.assigned_cpu < count)
        × ((get_or cpus task.assigned_cpu no_cpu).online ≡ true))
    × (has_state task running ≡ true → has_kind task no_list ≡ true)

abbrev pub IsReady : Scheduler → Task → Type 0
IsReady s task = Ready s.cpus s.configured_cpu_count task

unfoldable pub IsCpu : ℕ → Cpu → Type 0
IsCpu c cpu = (cpu.id ≡ c) × (length cpu.runnable ≡ 5)

pub record Placed (tasks : List Task) (cpus : List Cpu) (free sleeping blocked zombie : List ℕ)
    (count boot : ℕ) : Type 0 where
  pub listed :
      (k : ListKind) (t : ℕ)
      → is_plain k ≡ true
      → occurs (list_in free sleeping blocked zombie k) t
        ≡ one_if (has_kind (get_or tasks t no_task) k)
  pub queued :
      (c p t : ℕ)
      → occurs (queue_at (get_or cpus c no_cpu) p) t
        ≡ one_if (in_queue (get_or tasks t no_task) c p)
  pub ready : (t : ℕ) → Ready cpus count (get_or tasks t no_task)
  pub shaped : (c : ℕ) → c < length cpus → IsCpu c (get_or cpus c no_cpu)
  pub sized : count ≤ length cpus
  pub bounded : (c : ℕ) → (get_or cpus c no_cpu).online ≡ true → c < count
  pub booted : (boot < count) × ((get_or cpus boot no_cpu).online ≡ true)

abbrev pub IsPlaced : Scheduler → Type 0
IsPlaced s =
    Placed s.tasks s.cpus s.free_tasks s.sleeping_tasks s.blocked_tasks s.zombie_tasks
      s.configured_cpu_count s.boot_cpu_id

-- One task moves, all others stay. Where the task stood and where it stands now is said by counts.
pub record Moves (s s' : Scheduler) (t : ℕ) : Type 0 where
  pub others : (u : ℕ) → t ≢ u → task_at s' u ≡ task_at s u
  pub lists :
      (k : ListKind) (u : ℕ)
      → is_plain k ≡ true
      → occurs (list_of s' k) u + one_if (t == u && has_kind (task_at s t) k)
        ≡ occurs (list_of s k) u + one_if (t == u && has_kind (task_at s' t) k)
  pub queues :
      (c p u : ℕ)
      → occurs (queue_at (cpu_at s' c) p) u + one_if (t == u && in_queue (task_at s t) c p)
        ≡ occurs (queue_at (cpu_at s c) p) u + one_if (t == u && in_queue (task_at s' t) c p)
  pub ready : IsReady s' (task_at s' t)
  pub online : (c : ℕ) → (cpu_at s' c).online ≡ (cpu_at s c).online
  pub current : (c : ℕ) → (cpu_at s' c).current ≡ (cpu_at s c).current
  pub shaped : (c : ℕ) → IsCpu c (cpu_at s c) → IsCpu c (cpu_at s' c)
  pub same_length : length s'.cpus ≡ length s.cpus
  pub same_count : s'.configured_cpu_count ≡ s.configured_cpu_count
  pub same_boot : s'.boot_cpu_id ≡ s.boot_cpu_id

IsReady-same :
    (s s' : Scheduler) (task task' : Task)
    → task' ≡ task
    → s'.configured_cpu_count ≡ s.configured_cpu_count
    → ((c : ℕ) → (cpu_at s' c).online ≡ (cpu_at s c).online)
    → IsReady s task
    → IsReady s' task'
IsReady-same s s' task task' e n on h =
    subst (IsReady s') (sym e)
      (λ k. let (a, b, c, d) = h.0 k in (a, b, omega arith, on task.assigned_cpu ∙ d), h.1)

-- Counts that agree but for one task, which is where it should be.
settled :
    (t u before after : ℕ) (was is other now : Bool)
    → before ≡ one_if other
    → (t ≡ u → was ≡ other)
    → (t ≡ u → now ≡ is)
    → (t ≢ u → now ≡ other)
    → after + one_if (t == u && was) ≡ before + one_if (t == u && is)
    → after ≡ one_if now
settled t u before after was is other now e f g h k = elim (ℕ_discrete t u) [
  | yes p ↦ ground (arith, f p, g p)
  | no p ↦ ground (arith, h p)
]

pub Moves-IsPlaced : (s s' : Scheduler) (t : ℕ) → IsPlaced s → Moves s s' t → IsPlaced s'
Moves-IsPlaced s s' t v m = record {
  listed = λ k u plain.
      settled t u (occurs (list_of s k) u) (occurs (list_of s' k) u) (has_kind (task_at s t) k)
        (has_kind (task_at s' t) k) (has_kind (task_at s u) k) (has_kind (task_at s' u) k)
        (v.listed k u plain) (λ e. ap (λ w. has_kind (task_at s w) k) e)
        (λ e. ap (λ w. has_kind (task_at s' w) k) (sym e))
        (λ n. ap (λ w. has_kind w k) (m.others u n)) (m.lists k u plain);
  queued = λ c p u.
      settled t u _ _ (in_queue (task_at s t) c p) (in_queue (task_at s' t) c p)
        (in_queue (task_at s u) c p) (in_queue (task_at s' u) c p) (v.queued c p u)
        (λ e. ap (λ w. in_queue (task_at s w) c p) e)
        (λ e. ap (λ w. in_queue (task_at s' w) c p) (sym e))
        (λ n. ap (λ w. in_queue w c p) (m.others u n)) (m.queues c p u);
  ready = λ u. elim (ℕ_discrete t u) [
    | yes e ↦ subst (λ w. IsReady s' (task_at s' w)) e m.ready
    | no n ↦
        IsReady-same s s' (task_at s u) (task_at s' u) (m.others u n) m.same_count m.online
          (v.ready u)
  ];
  shaped = λ c lt. m.shaped c (v.shaped c (omega (arith, m.same_length)));
  sized = omega (arith, v.sized, m.same_length, m.same_count);
  bounded = λ c on. omega (arith, v.bounded c (sym (m.online c) ∙ on), m.same_count);
  booted = (
    omega (arith, v.booted.0, m.same_count, m.same_boot),
    subst (λ b. (cpu_at s' b).online ≡ true) (sym m.same_boot)
        (m.online s.boot_cpu_id ∙ v.booted.1),
  );
}
