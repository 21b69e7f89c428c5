-- ===== src/Scheduler/Next.antt =====
-- Which task a processor runs next: `scheduler_cpu_dequeue_next_runnable` of kernel/kernel/scheduler.c.
use dfos.Base.{
  ℕ, zero, suc, ◌+◌, ◌≤◌, ◌<◌, true, List, [], ◌∷◌, Option, none, some, get_or, set, length,
  length-set, get_or-set_self, get_or-set_ne, ◌≡◌, ◌≢◌, refl, sym, ap, ◌∙◌, subst, arith, ◌⊎◌, inl,
  inr,
}
use native.Mathlib.Decide.{ℕ_discrete}
use dfos.Scheduler.State.{
  Scheduler, Cpu, Task, no_list, runnable_list, no_cpu, no_task, task_at, cpu_at, queue_at,
  has_kind, without,
}
use dfos.Scheduler.Queues.{
  drop_runnable, remove_from_queue, first_from, dequeue_found, scheduler_cpu_dequeue_next_runnable,
}
use dfos.Scheduler.Placed.{IsPlaced, IsCpu, Moves-IsPlaced, occurs, in_queue}
use dfos.Scheduler.Keeps.{known_task, sanitize_same, remove-Moves}
use dfos.Scheduler.Moves.{current-set}

-- The first task of the first queue from `priority` on that is not empty, in `rounds` queues.
unfoldable pub IsFirst : Cpu → ℕ → ℕ → Option (ℕ × ℕ) → Type 0
IsFirst cpu priority rounds none =
    (p : ℕ) → priority ≤ p → p < priority + rounds → queue_at cpu p ≡ []
IsFirst cpu priority rounds (some (q, t)) =
    (priority ≤ q)
    × (q < priority + rounds)
    × (queue_at cpu q ≡ t ∷ without (queue_at cpu q) t)
    × ((p : ℕ) → priority ≤ p → p < q → queue_at cpu p ≡ [])

without_head : (t : ℕ) (rest : List ℕ) → without (t ∷ rest) t ≡ rest
unfolding without
without_head t rest = ground arith

IsFirst-next :
    (cpu : Cpu) (priority rounds : ℕ) (found : Option (ℕ × ℕ))
    → queue_at cpu priority ≡ []
    → IsFirst cpu (priority + 1) rounds found
    → IsFirst cpu priority (suc rounds) found
unfolding IsFirst
IsFirst-next cpu priority rounds none e h = λ p lo hi. elim (ℕ_discrete priority p) [
  | yes same ↦ subst (λ w. queue_at cpu w ≡ []) same e
  | no other ↦ h p (omega (arith, other)) (omega arith)
]
IsFirst-next cpu priority rounds (some (q, t)) e h =
    let (a, b, c, d) = h in
    (
      omega arith,
      omega arith,
      c,
      λ p lo hi. elim (ℕ_discrete priority p) [
        | yes same ↦ subst (λ w. queue_at cpu w ≡ []) same e
        | no other ↦ d p (omega (arith, other)) hi
      ],
    )

IsFirst-step :
    (cpu : Cpu) (priority rounds : ℕ) (queue : List ℕ) (found : Option (ℕ × ℕ))
    → queue_at cpu priority ≡ queue
    → IsFirst cpu (priority + 1) rounds found
    → IsFirst cpu priority (suc rounds) (elim queue [ [] ↦ found | t ∷ _ ↦ some (priority, t) ])
unfolding IsFirst
IsFirst-step cpu priority rounds [] found e h = IsFirst-next cpu priority rounds found e h
IsFirst-step cpu priority rounds (t ∷ rest) found e h = (
  omega arith,
  omega arith,
  rw (e) (ap (λ w. t ∷ w) (sym (without_head t rest))),
  λ p lo hi. absurd (omega arith),
)

pub first_from-IsFirst :
    (cpu : Cpu) (priority rounds : ℕ) → IsFirst cpu priority rounds (first_from cpu priority rounds)
unfolding first_from IsFirst
first_from-IsFirst cpu priority zero = λ p lo hi. absurd (omega arith)
first_from-IsFirst cpu priority (suc rounds) =
    IsFirst-step cpu priority rounds (queue_at cpu priority) _ refl
      (first_from-IsFirst cpu (priority + 1) rounds)

-- The highest of the five queues that has a task gives its first one; it alone is shortened.
unfoldable pub IsNext : ℕ → Scheduler → Option ℕ → Scheduler → Type 0
IsNext c s none s' = ((p : ℕ) → p < 5 → queue_at (cpu_at s c) p ≡ []) × (s' ≡ s)
IsNext c s (some t) s' =
    (t < length s.tasks)
    × (has_kind (task_at s' t) no_list ≡ true)
    × (queue_at (cpu_at s c) (task_at s t).priority
        ≡ t ∷ queue_at (cpu_at s' c) (task_at s t).priority)
    × ((p : ℕ) → p < (task_at s t).priority → queue_at (cpu_at s c) p ≡ [])
    × ((c' p : ℕ)
        → c ≢ c' ⊎ (task_at s t).priority ≢ p
        → queue_at (cpu_at s' c') p ≡ queue_at (cpu_at s c') p)

module _ (s : Scheduler) (v : IsPlaced s) (c q t : ℕ)
    (head : queue_at (cpu_at s c) q ≡ t ∷ without (queue_at (cpu_at s c) q) t) where
  head_in_queue : in_queue (task_at s t) c q ≡ true
  unfolding occurs
  head_in_queue = ground (arith, v.queued c q t, ap (λ list. occurs list t) head)

  pub head_task :
      (has_kind (task_at s t) runnable_list ≡ true)
      × ((task_at s t).assigned_cpu ≡ c)
      × ((task_at s t).priority ≡ q)
  head_task =
      (ground (arith, head_in_queue), ground (arith, head_in_queue), ground (arith, head_in_queue))

  pub head_known : t < length s.tasks
  head_known = known_task s.tasks t runnable_list head_task.0 refl

  pub here : c < s.configured_cpu_count
  here = omega (arith, ((v.ready t).0 head_task.0).2, head_task.1)

  pub small : (task_at s t).priority < 5
  small = ((v.ready t).0 head_task.0).1

  pub dequeued-IsPlaced : IsPlaced (record s {
    tasks = set s.tasks t (record (task_at s t) { list_kind = no_list });
    cpus = set s.cpus c (drop_runnable (cpu_at s c) q t);
  })
  unfolding remove_from_queue
  dequeued-IsPlaced =
      subst
        (λ w. IsPlaced (record s {
          tasks = set s.tasks t (record (task_at s t) { list_kind = no_list });
          cpus = set s.cpus c (drop_runnable (cpu_at s c) w t);
        }))
        (sanitize_same (task_at s t).priority small ∙ head_task.2)
        (Moves-IsPlaced s (remove_from_queue c t s) t v
          (remove-Moves s v c t head_known here head_task.0 head_task.1))

module _ (cpus : List Cpu) (c q t : ℕ) (in_cpus : c < length cpus)
    (in_queues : q < length (get_or cpus c no_cpu).runnable) where
  abbrev after : List Cpu
  after = set cpus c (drop_runnable (get_or cpus c no_cpu) q t)

  pub queue-drop :
      queue_at (get_or after c no_cpu) q ≡ without (queue_at (get_or cpus c no_cpu) q) t
  unfolding drop_runnable
  queue-drop =
      rw (get_or-set_self cpus c (drop_runnable (get_or cpus c no_cpu) q t) no_cpu in_cpus)
        (get_or-set_self (get_or cpus c no_cpu).runnable q _ [] in_queues)

  other_cpu :
      (c' p : ℕ) → c ≢ c' → queue_at (get_or after c' no_cpu) p ≡ queue_at (get_or cpus c' no_cpu) p
  other_cpu c' p n =
      ap (λ cpu. queue_at cpu p)
        (get_or-set_ne cpus c c' (drop_runnable (get_or cpus c no_cpu) q t) no_cpu n)

  other_queue :
      (p : ℕ) → q ≢ p → queue_at (get_or after c no_cpu) p ≡ queue_at (get_or cpus c no_cpu) p
  unfolding drop_runnable
  other_queue p n =
      rw (get_or-set_self cpus c (drop_runnable (get_or cpus c no_cpu) q t) no_cpu in_cpus)
        (get_or-set_ne (get_or cpus c no_cpu).runnable q p _ [] n)

  pub queue-drop_other :
      (c' p : ℕ)
      → c ≢ c' ⊎ q ≢ p
      → queue_at (get_or after c' no_cpu) p ≡ queue_at (get_or cpus c' no_cpu) p
  queue-drop_other c' p (inl n) = other_cpu c' p n
  queue-drop_other c' p (inr n) = elim (ℕ_discrete c c') [
    | yes e ↦
        subst (λ w. queue_at (get_or after w no_cpu) p ≡ queue_at (get_or cpus w no_cpu) p) e
          (other_queue p n)
    | no other ↦ other_cpu c' p other
  ]

-- What a dequeue leaves.
pub record Dequeued (c : ℕ) (s : Scheduler) (next : Option ℕ) (s' : Scheduler) : Type 0 where
  pub placed : IsPlaced s'
  pub chosen : IsNext c s next s'
  pub same_tasks : length s'.tasks ≡ length s.tasks
  pub same_cpus : length s'.cpus ≡ length s.cpus
  pub others : (u : ℕ) → next ≢ some u → task_at s' u ≡ task_at s u
  pub frame : (u : ℕ) → (task_at s' u).frame ≡ (task_at s u).frame
  pub current : (d : ℕ) → (cpu_at s' d).current ≡ (cpu_at s d).current

same_frame :
    (tasks : List Task) (t : ℕ) (task : Task)
    → task.frame ≡ (get_or tasks t no_task).frame
    → (u : ℕ) → (get_or (set tasks t task) u no_task).frame ≡ (get_or tasks u no_task).frame
same_frame [] t task e u = refl
same_frame (x ∷ tasks) zero task e zero = e
same_frame (x ∷ tasks) zero task e (suc u) = refl
same_frame (x ∷ tasks) (suc t) task e zero = refl
same_frame (x ∷ tasks) (suc t) task e (suc u) = same_frame tasks t task e u

dequeue_found-Dequeued :
    (c : ℕ) (s : Scheduler) (found : Option (ℕ × ℕ))
    → IsPlaced s
    → IsFirst (cpu_at s c) 0 5 found
    → Dequeued c s (dequeue_found c s found).0 (dequeue_found c s found).1
unfolding dequeue_found IsFirst IsNext IsCpu drop_runnable
dequeue_found-Dequeued c s none v h = record {
  placed = v;
  chosen = (λ p lt. h p (omega arith) lt, refl);
  same_tasks = refl;
  same_cpus = refl;
  others = λ u n. refl;
  frame = λ u. refl;
  current = λ d. refl;
}
dequeue_found-Dequeued c s (some (q, t)) v h =
    let (lo, hi, head, before) = h in
    let q_is = (head_task s v c q t head).2 in
    let in_cpus : c < length s.cpus = omega (arith, here s v c q t head, v.sized) in
    let in_queues : q < length (cpu_at s c).runnable = omega (arith, hi, (v.shaped c in_cpus).1) in
    record {
      placed = dequeued-IsPlaced s v c q t head;
      chosen = (
        head_known s v c q t head,
        rw (get_or-set_self s.tasks t _ no_task (head_known s v c q t head)) refl,
        rw (q_is) (head ∙ ap (λ list. t ∷ list) (sym (queue-drop s.cpus c q t in_cpus in_queues))),
        λ p lt. before p (omega arith) (omega (arith, q_is)),
        λ c' p other.
            queue-drop_other s.cpus c q t in_cpus in_queues c' p
              (subst (λ w. c ≢ c' ⊎ w ≢ p) q_is other),
      );
      same_tasks = length-set s.tasks t _;
      same_cpus = length-set s.cpus c _;
      others = λ u n. get_or-set_ne s.tasks t u _ no_task (λ e. n (ap some e));
      frame = same_frame s.tasks t _ refl;
      current = current-set s.cpus c in_cpus (drop_runnable (cpu_at s c) q t) refl;
    }

pub dequeue-Dequeued :
    (c : ℕ) (s : Scheduler)
    → IsPlaced s
    → Dequeued c s
        (scheduler_cpu_dequeue_next_runnable c s).0
        (scheduler_cpu_dequeue_next_runnable c s).1
unfolding scheduler_cpu_dequeue_next_runnable
dequeue-Dequeued c s v =
    dequeue_found-Dequeued c s (first_from (cpu_at s c) 0 5) v (first_from-IsFirst (cpu_at s c) 0 5)

-- From a state whose lists are right, a dequeue answers the first task of the queue of its
-- priority, with all queues of higher priority empty, takes it off that queue and leaves every
-- other queue as it was; it answers none and changes nothing only if all five queues are empty.
pub scheduler_cpu_dequeue_next_runnable-IsNext :
    (c : ℕ) (s : Scheduler)
    → IsPlaced s
    → IsNext c s
        (scheduler_cpu_dequeue_next_runnable c s).0
        (scheduler_cpu_dequeue_next_runnable c s).1
scheduler_cpu_dequeue_next_runnable-IsNext c s v = (dequeue-Dequeued c s v).chosen
