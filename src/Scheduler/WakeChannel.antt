-- ===== src/Scheduler/WakeChannel.antt =====
-- Whom `scheduler_wake_channel` of kernel/kernel/scheduler.c wakes.
use dfos.Base.{
  ℕ, ◌+◌, ◌-◌, ◌≤◌, ◌<◌, true, false, ◌&&◌, List, [], ◌∷◌, ltb, ◌==◌, if◌then◌else◌, get_or, length,
  length-set, get_or-set_self, ◌≡◌, ◌≢◌, refl, sym, ap, one_of, elim_of, ◌∙◌, subst, arith,
}
use native.Mathlib.Decide.{ℕ_discrete}
use dfos.Scheduler.Select.{uint_max}
use dfos.Scheduler.State.{
  Scheduler, Processor, Task, runnable, cpu_at, queue_at, kind_value, runnable_list, blocked_list,
  no_task, task_at, scheduler_cpu_by_id,
}
use dfos.Scheduler.Queues.{
  wakeup, scheduler_enqueue_runnable, scheduler_cpu_enqueue_runnable,
  scheduler_cpu_enqueue_runnable_local,
}
use dfos.Scheduler.Waiting.{take_waiter, wake_task, wake_waiters, scheduler_wake_channel}
use dfos.Scheduler.Placed.{IsPlaced, occurs}
use dfos.Scheduler.Keeps.{known_task}
use dfos.Scheduler.Wakes.{notify-tasks}
use dfos.Scheduler.Woken.{
  Woke, Pending, Pending-first, Pending-rest, Pending-next, IsPlaced-Pending, wake_task-Woke,
}

-- The tasks of a list that wait on a channel, and the first ones of a list.
unfoldable pub waiters : Scheduler → ℕ → List ℕ → List ℕ
waiters s wait_channel [] = []
waiters s wait_channel (t ∷ list) =
    let rest = waiters s wait_channel list in
    if (task_at s t).wait_channel == wait_channel then t ∷ rest else rest

unfoldable pub take_first : ℕ → List ℕ → List ℕ
take_first limit [] = []
take_first limit (t ∷ list) =
    let rest = take_first (limit - 1) list in if limit == 0 then [] else t ∷ rest

-- The task is runnable, its wait did not time out, it stands once in the run queue of its processor
-- and priority and no longer among the blocked ones.
pub record Awake (s : Scheduler) (t : ℕ) : Type 0 where
  pub state : (task_at s t).state ≡ runnable
  pub result : (task_at s t).wait_result ≡ true
  pub queued : occurs (queue_at (cpu_at s (task_at s t).assigned_cpu) (task_at s t).priority) t ≡ 1
  pub unblocked : occurs s.blocked_tasks t ≡ 0

-- Exactly these tasks were woken, and the lists are right.
pub record IsWoken (s : Scheduler) (woken : List ℕ) (count : ℕ) (s' : Scheduler) : Type 0 where
  pub placed : IsPlaced s'
  pub count_is : count ≡ length woken
  pub awake : (u : ℕ) → 0 < occurs woken u → Awake s' u
  pub others : (u : ℕ) → occurs woken u ≡ 0 → task_at s' u ≡ task_at s u

nobody : (s : Scheduler) → IsPlaced s → IsWoken s [] 0 s
unfolding occurs
nobody s v = record {
  placed = v;
  count_is = refl;
  awake = λ u h. absurd (omega (arith, h));
  others = λ u h. refl;
}

-- Where the lists are right, the kind of the list says the rest.
queued-Awake :
    (s : Scheduler) (t : ℕ)
    → IsPlaced s
    → (task_at s t).state ≡ runnable
    → (task_at s t).list_kind ≡ runnable_list
    → (task_at s t).wait_result ≡ true
    → Awake s t
queued-Awake s t v state kind result = record {
  state = state;
  result = result;
  queued =
      v.queued (task_at s t).assigned_cpu (task_at s t).priority t
      ∙ ground (arith, ap kind_value kind);
  unblocked = v.listed blocked_list t refl ∙ ground (arith, ap kind_value kind);
}

waiters-same :
    (s s' : Scheduler) (wait_channel : ℕ) (list : List ℕ)
    → ((u : ℕ) → 0 < occurs list u → task_at s' u ≡ task_at s u)
    → waiters s' wait_channel list ≡ waiters s wait_channel list
unfolding waiters occurs
waiters-same s s' wait_channel [] h = refl
waiters-same s s' wait_channel (t ∷ list) h =
    rw (h t (ground arith), waiters-same s s' wait_channel list (λ u k. h u (omega (arith, k))))
      refl

occurs-waiters :
    (s : Scheduler) (wait_channel : ℕ) (list : List ℕ) (u : ℕ)
    → occurs (waiters s wait_channel list) u ≤ occurs list u
unfolding waiters occurs
occurs-waiters s wait_channel [] u = omega arith
occurs-waiters s wait_channel (t ∷ list) u =
    one_of (λ woken. occurs woken u ≤ occurs (t ∷ list) u)
      ((task_at s t).wait_channel == wait_channel) (t ∷ waiters s wait_channel list)
      (waiters s wait_channel list) (λ h. omega (arith, occurs-waiters s wait_channel list u))
      (λ h. omega (arith, occurs-waiters s wait_channel list u))

occurs-take_first :
    (limit : ℕ) (list : List ℕ) (u : ℕ) → occurs (take_first limit list) u ≤ occurs list u
unfolding take_first occurs
occurs-take_first limit [] u = omega arith
occurs-take_first limit (t ∷ list) u =
    one_of (λ taken. occurs taken u ≤ occurs (t ∷ list) u) (limit == 0) []
      (t ∷ take_first (limit - 1) list) (λ h. omega arith)
      (λ h. omega (arith, occurs-take_first (limit - 1) list u))

-- A task that is woken.
wake_task-awake :
    (p : Processor) (t : ℕ) (s : Scheduler)
    → t < length s.tasks
    → ((task_at (wake_task p t s) t).state ≡ runnable)
      × ((task_at (wake_task p t s) t).list_kind ≡ runnable_list)
      × ((task_at (wake_task p t s) t).wait_result ≡ true)
unfolding wake_task take_waiter scheduler_enqueue_runnable scheduler_cpu_enqueue_runnable
    scheduler_cpu_enqueue_runnable_local
wake_task-awake p t s known =
    let off = take_waiter t s in
    let c = scheduler_cpu_by_id off (task_at off t).assigned_cpu in
    let queued = scheduler_cpu_enqueue_runnable_local c t off in
    let known' : t < length off.tasks = omega (arith, known, length-set s.tasks t _) in
    let same =
      ap (λ tasks. get_or tasks t no_task) (notify-tasks p c wakeup queued)
      ∙ get_or-set_self off.tasks t _ no_task known' in
    let off_same = get_or-set_self s.tasks t _ no_task known in
    (
      ap (λ (task : Task). task.state) same,
      ap (λ (task : Task). task.list_kind) same,
      ap (λ (task : Task). task.wait_result) same ∙ ap (λ (task : Task). task.wait_result) off_same,
    )

take_none : (list : List ℕ) → take_first 0 list ≡ []
unfolding take_first
take_none [] = refl
take_none (t ∷ list) = refl

module _ (s : Scheduler) (wait_channel t : ℕ) (list : List ℕ) (limit : ℕ) where
  skipped :
      ((task_at s t).wait_channel == wait_channel && ltb 0 limit) ≡ false
      → take_first limit (waiters s wait_channel (t ∷ list))
        ≡ take_first limit (waiters s wait_channel list)
  unfolding waiters
  skipped h =
      one_of (λ w. take_first limit w ≡ take_first limit (waiters s wait_channel list))
        ((task_at s t).wait_channel == wait_channel) _ _
        (λ k.
          let none_left : limit ≡ 0 = ground (arith, h, k) in
          rw (none_left) (take_none _ ∙ sym (take_none _)))
        (λ k. refl)

  chosen :
      ((task_at s t).wait_channel == wait_channel && ltb 0 limit) ≡ true
      → take_first limit (waiters s wait_channel (t ∷ list))
        ≡ t ∷ take_first (limit - 1) (waiters s wait_channel list)
  unfolding waiters take_first
  chosen h =
      one_of (λ w. take_first limit w ≡ t ∷ take_first (limit - 1) (waiters s wait_channel list))
        ((task_at s t).wait_channel == wait_channel) (t ∷ waiters s wait_channel list)
        (waiters s wait_channel list)
        (λ k.
          one_of (λ w. w ≡ t ∷ take_first (limit - 1) (waiters s wait_channel list)) (limit == 0) []
            _ (λ l. absurd (ground (arith, h, l))) (λ l. refl))
        (λ k. absurd (ground (arith, h, k)))

-- One task woken, and then those of the rest.
IsWoken-next :
    (s s' s'' : Scheduler) (t count : ℕ) (woken : List ℕ)
    → Woke s s' t
    → (task_at s' t).state ≡ runnable
    → (task_at s' t).list_kind ≡ runnable_list
    → (task_at s' t).wait_result ≡ true
    → occurs woken t ≡ 0
    → IsWoken s' woken count s''
    → IsWoken s (t ∷ woken) (count + 1) s''
unfolding occurs
IsWoken-next s s' s'' t count woken w state kind result once h = record {
  placed = h.placed;
  count_is = omega (arith, h.count_is);
  awake = λ u k. elim (ℕ_discrete t u) [
    | yes e ↦
        let same = h.others t once in
        subst (Awake s'') e (
          queued-Awake s'' t h.placed (ap (λ (task : Task). task.state) same ∙ state)
            (ap (λ (task : Task). task.list_kind) same ∙ kind)
            (ap (λ (task : Task). task.wait_result) same ∙ result))
    | no n ↦ h.awake u (ground (arith, k, n))
  ];
  others = λ u k. elim (ℕ_discrete t u) [
    | yes e ↦ absurd (ground (arith, k, e))
    | no n ↦ h.others u (omega (arith, k)) ∙ w.others u n
  ];
}

of_same :
    (s s' : Scheduler) (count : ℕ) (a b : List ℕ)
    → a ≡ b
    → IsWoken s a count s'
    → IsWoken s b count s'
of_same s s' count a b e h = subst (λ woken. IsWoken s woken count s') e h

-- A pending task comes once.
Pending-once :
    (s : Scheduler) (t : ℕ) (list : List ℕ) → Pending s blocked_list (t ∷ list) → occurs list t ≡ 0
unfolding Pending occurs
Pending-once s t list h = ground (arith, h t)

apart : (t u : ℕ) (list : List ℕ) → occurs list t ≡ 0 → 0 < occurs list u → t ≢ u
apart t u list h k e = omega (arith, h, k, ap (occurs list) e)

wake_waiters-IsWoken :
    (p : Processor) (wait_channel : ℕ) (list : List ℕ) (limit : ℕ) (s : Scheduler)
    → IsPlaced s
    → Pending s blocked_list list
    → IsWoken s
        (take_first limit (waiters s wait_channel list))
        (wake_waiters p wait_channel list limit s).0
        (wake_waiters p wait_channel list limit s).1
unfolding wake_waiters waiters take_first
wake_waiters-IsWoken p wait_channel [] limit s v pending = nobody s v
wake_waiters-IsWoken p wait_channel (t ∷ list) limit s v pending =
    let s' = wake_task p t s in
    let w = wake_task-Woke p t s v (Pending-first s blocked_list t list pending) in
    let later =
      wake_waiters-IsWoken p wait_channel list (limit - 1) s' w.placed
        (Pending-next s s' blocked_list t list pending w) in
    let passed =
      wake_waiters-IsWoken p wait_channel list limit s v
        (Pending-rest s blocked_list t list pending) in
    let once : occurs list t ≡ 0 = Pending-once s t list pending in
    elim_of
      (λ (r : ℕ × Scheduler).
        IsWoken s (take_first limit (waiters s wait_channel (t ∷ list))) r.0 r.1)
      ((task_at s t).wait_channel == wait_channel && ltb 0 limit) _ _
      (λ h.
        let rest = wake_waiters p wait_channel list (limit - 1) s' in
        let next = take_first (limit - 1) (waiters s wait_channel list) in
        let same =
          waiters-same s s' wait_channel list (λ u k. w.others u (apart t u list once k)) in
        let later' = of_same s' rest.1 rest.0 _ next (ap (take_first (limit - 1)) same) later in
        let (state, kind, result) =
          wake_task-awake p t s (
            known_task s.tasks t blocked_list (Pending-first s blocked_list t list pending) refl) in
        let gone : occurs next t ≡ 0 = omega (
          arith,
          once,
          occurs-take_first (limit - 1) (waiters s wait_channel list) t,
          occurs-waiters s wait_channel list t,
        ) in
        of_same s rest.1 (rest.0 + 1) _ _ (sym (chosen s wait_channel t list limit h))
          (IsWoken-next s s' rest.1 t rest.0 next w state kind result gone later'))
      (λ h. of_same s _ _ _ _ (sym (skipped s wait_channel t list limit h)) passed)

-- From a state whose lists are right, for a channel other than null, a wake-up wakes the first
-- `max_count` of the blocked tasks that wait on the channel, or 2^32 - 1 of them if `max_count` is 0. Each
-- becomes runnable with a wait that succeeded, stands once in the run queue of its processor and priority
-- and no longer in the blocked list; the answer is their number, every other task is as before and the lists are right.
pub scheduler_wake_channel-IsWoken :
    (p : Processor) (wait_channel max_count : ℕ) (s : Scheduler)
    → IsPlaced s
    → wait_channel ≢ 0
    → IsWoken s
        (take_first
          (if max_count == 0 then uint_max else max_count)
          (waiters s wait_channel s.blocked_tasks))
        (scheduler_wake_channel p wait_channel max_count s).0
        (scheduler_wake_channel p wait_channel max_count s).1
unfolding scheduler_wake_channel
scheduler_wake_channel-IsWoken p wait_channel max_count s v proper =
    let limit = if max_count == 0 then uint_max else max_count in
    one_of
      (λ (r : ℕ × Scheduler).
        IsWoken s (take_first limit (waiters s wait_channel s.blocked_tasks)) r.0 r.1)
      (wait_channel == 0) _ _ (λ h. absurd (ground (arith, h, proper)))
      (λ h.
        wake_waiters-IsWoken p wait_channel s.blocked_tasks limit s v
          (IsPlaced-Pending s v blocked_list refl))
