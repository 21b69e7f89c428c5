-- ===== src/Scheduler/Plain.antt =====
-- The steps of kernel/kernel/scheduler.c that put a task on a list other than a run queue or take it
-- off keep the invariant of the lists.
use dfos.Base.{
  ℕ, ◌+◌, ◌<◌, Bool, true, false, ◌&&◌, List, [], ◌∷◌, ◌++◌, ◌==◌, if◌then◌else◌, get_or, set,
  length, get_or-set_self, get_or-set_ne, ◌≡◌, ◌≢◌, refl, ap, one_of, ◌∙◌, arith,
}
use dfos.Scheduler.State.{
  Scheduler, Task, ListKind, no_list, free_list, runnable_list, sleeping_list, blocked_list,
  zombie_list, no_cpu, no_task, running, task_at, has_state, has_kind, kind_value, without,
}
use dfos.Scheduler.Placed.{
  occurs, occurs-append, occurs-without, IsPlaced, Moves, list_of, is_plain, one_if,
}
use dfos.Scheduler.Moves.{not_plain}

-- Nothing but one task of the table and the plain lists changes.
pub record Apart (s s' : Scheduler) (t : ℕ) (task : Task) : Type 0 where
  pub table : s'.tasks ≡ set s.tasks t task
  pub processors : s'.cpus ≡ s.cpus
  pub counts : (s'.configured_cpu_count ≡ s.configured_cpu_count) × (s'.boot_cpu_id ≡ s.boot_cpu_id)

-- One list changes, all others stay.
abbrev pub Changed : Scheduler → Scheduler → ListKind → List ℕ → Type 0
Changed s s' k list =
    (j : ListKind) → list_of s' j ≡ (if kind_value j == kind_value k then list else list_of s j)

-- From the four lists.
pub Changed-by :
    (s s' : Scheduler) (k : ListKind) (list : List ℕ)
    → s'.free_tasks ≡ (if 1 == kind_value k then list else s.free_tasks)
    → s'.sleeping_tasks ≡ (if 3 == kind_value k then list else s.sleeping_tasks)
    → s'.blocked_tasks ≡ (if 4 == kind_value k then list else s.blocked_tasks)
    → s'.zombie_tasks ≡ (if 5 == kind_value k then list else s.zombie_tasks)
    → is_plain k ≡ true
    → Changed s s' k list
Changed-by s s' k list f sl b z plain no_list =
    one_of (λ w. [] ≡ w) (0 == kind_value k) list []
      (λ h. absurd (ground (arith, h, not_plain k plain))) (λ h. refl)
Changed-by s s' k list f sl b z plain free_list = f
Changed-by s s' k list f sl b z plain runnable_list =
    one_of (λ w. [] ≡ w) (2 == kind_value k) list []
      (λ h. absurd (ground (arith, h, not_plain k plain))) (λ h. refl)
Changed-by s s' k list f sl b z plain sleeping_list = sl
Changed-by s s' k list f sl b z plain blocked_list = b
Changed-by s s' k list f sl b z plain zombie_list = z

module _ (s s' : Scheduler) (v : IsPlaced s) (t : ℕ) (known : t < length s.tasks) (task : Task)
    (apart : Apart s s' t task) where
  self : task_at s' t ≡ task
  self = rw (apart.table) (get_or-set_self s.tasks t task no_task known)

  others : (u : ℕ) → t ≢ u → task_at s' u ≡ task_at s u
  others u n = rw (apart.table) (get_or-set_ne s.tasks t u task no_task n)

  -- The task is in no run queue, before and after.
  pub plain-Moves :
      has_kind (task_at s t) runnable_list ≡ false
      → has_kind task runnable_list ≡ false
      → (has_state task running ≡ true → has_kind task no_list ≡ true)
      → ((k : ListKind) (u : ℕ)
          → is_plain k ≡ true
          → occurs (list_of s' k) u + one_if (t == u && has_kind (task_at s t) k)
            ≡ occurs (list_of s k) u + one_if (t == u && has_kind task k))
      → Moves s s' t
  plain-Moves before after idle moved = record {
    others = others;
    lists = λ k u plain. rw (self) (moved k u plain);
    queues = λ c p u. rw (self, apart.processors) (ground (arith, before, after));
    ready = rw (self) (λ e. cc, idle);
    online = λ c. ap (λ w. (get_or w c no_cpu).online) apart.processors;
    current = λ c. ap (λ w. (get_or w c no_cpu).current) apart.processors;
    shaped = λ c h. rw (apart.processors) h;
    same_length = ap length apart.processors;
    same_count = apart.counts.0;
    same_boot = apart.counts.1;
  }

  same_kind :
      (u : ℕ)
      → (t == u) ≡ true
      → kind_value (task_at s t).list_kind ≡ kind_value (task_at s u).list_kind
  same_kind u h = let e : t ≡ u = ground arith in ap (λ w. kind_value (task_at s w).list_kind) e

  after_change :
      (k : ListKind) (list : List ℕ)
      → Changed s s' k list
      → (j : ListKind) (u : ℕ)
      → occurs (list_of s' j) u
        ≡ (if kind_value j == kind_value k then occurs list u else occurs (list_of s j) u)
  after_change k list changed j u =
      ap (λ w. occurs w u) (changed j) ∙ pick (kind_value j == kind_value k)
    where
      pick :
          (test : Bool)
          → occurs (if test then list else list_of s j) u
            ≡ (if test then occurs list u else occurs (list_of s j) u)
      pick true = refl
      pick false = refl

  -- Off the list `k`.
  pub leave-Moves :
      (k : ListKind)
      → is_plain k ≡ true
      → has_kind (task_at s t) k ≡ true
      → has_kind task no_list ≡ true
      → Changed s s' k (without (list_of s k) t)
      → Moves s s' t
  leave-Moves k plain on off changed =
      plain-Moves (ground (arith, not_plain k plain, on)) (ground (arith, off)) (λ e. off)
        (λ j u p. ground (
          arith,
          after_change k (without (list_of s k) t) changed j u,
          occurs-without (list_of s k) t u,
          not_plain j p,
          v.listed j u p,
          v.listed k u plain,
          same_kind u,
        ))

  -- On the list `k`.
  pub join-Moves :
      (k : ListKind)
      → is_plain k ≡ true
      → has_kind (task_at s t) no_list ≡ true
      → has_kind task k ≡ true
      → has_state task running ≡ false
      → Changed s s' k (list_of s k ++ (t ∷ []))
      → Moves s s' t
  join-Moves k plain off on idle changed =
      plain-Moves (ground (arith, off)) (ground (arith, not_plain k plain, on)) (λ e. cc)
        (λ j u p. ground (
          arith,
          after_change k (list_of s k ++ (t ∷ [])) changed j u,
          occurs-append (list_of s k) t u,
          not_plain j p,
          v.listed j u p,
          v.listed k u plain,
          same_kind u,
        ))
