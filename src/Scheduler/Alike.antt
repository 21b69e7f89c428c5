-- ===== src/Scheduler/Alike.antt =====
-- Changes to the tasks and processors of kernel/kernel/scheduler.c that the lists do not depend on.
use dfos.Base.{
  ℕ, zero, suc, List, [], ◌∷◌, ◌==◌, get_or, set, length, ◌≡◌, refl, sym, ap, ◌∙◌, arith,
}
use dfos.Scheduler.State.{Task, Cpu, ListKind, no_cpu, no_task, has_kind, kind_value}
use dfos.Scheduler.Placed.{Placed, IsCpu, Ready, occurs, one_if, in_queue}

-- The tasks agree in all that says where they are.
pub record Alike (a b : Task) : Type 0 where
  pub state : a.state ≡ b.state
  pub kind : a.list_kind ≡ b.list_kind
  pub priority : a.priority ≡ b.priority
  pub processor : a.assigned_cpu ≡ b.assigned_cpu

pub record AlikeCpu (a b : Cpu) : Type 0 where
  pub id : a.id ≡ b.id
  pub online : a.online ≡ b.online
  pub runnable : a.runnable ≡ b.runnable

Alike-same : (a : Task) → Alike a a
Alike-same a = record { state = refl; kind = refl; priority = refl; processor = refl }

AlikeCpu-same : (a : Cpu) → AlikeCpu a a
AlikeCpu-same a = record { id = refl; online = refl; runnable = refl }

-- All tasks, when one is exchanged for one alike.
pub Alike-set :
    (tasks : List Task) (t : ℕ) (task : Task)
    → Alike task (get_or tasks t no_task)
    → (u : ℕ) → Alike (get_or (set tasks t task) u no_task) (get_or tasks u no_task)
Alike-set [] t task h u = Alike-same no_task
Alike-set (x ∷ tasks) zero task h zero = h
Alike-set (x ∷ tasks) zero task h (suc u) = Alike-same (get_or tasks u no_task)
Alike-set (x ∷ tasks) (suc t) task h zero = Alike-same x
Alike-set (x ∷ tasks) (suc t) task h (suc u) = Alike-set tasks t task h u

pub AlikeCpu-set :
    (cpus : List Cpu) (c : ℕ) (cpu : Cpu)
    → AlikeCpu cpu (get_or cpus c no_cpu)
    → (d : ℕ) → AlikeCpu (get_or (set cpus c cpu) d no_cpu) (get_or cpus d no_cpu)
AlikeCpu-set [] c cpu h d = AlikeCpu-same no_cpu
AlikeCpu-set (x ∷ cpus) zero cpu h zero = h
AlikeCpu-set (x ∷ cpus) zero cpu h (suc d) = AlikeCpu-same (get_or cpus d no_cpu)
AlikeCpu-set (x ∷ cpus) (suc c) cpu h zero = AlikeCpu-same x
AlikeCpu-set (x ∷ cpus) (suc c) cpu h (suc d) = AlikeCpu-set cpus c cpu h d

has_kind-Alike : (a b : Task) → Alike a b → (k : ListKind) → has_kind a k ≡ has_kind b k
has_kind-Alike a b h k = ap (λ kind. kind_value kind == kind_value k) h.kind

in_queue-Alike : (a b : Task) → Alike a b → (c p : ℕ) → in_queue a c p ≡ in_queue b c p
in_queue-Alike a b h c p = rw (h.kind, h.processor, h.priority) refl

Ready-Alike :
    (cpus : List Cpu) (count : ℕ) (a b : Task) → Alike a b → Ready cpus count b → Ready cpus count a
Ready-Alike cpus count a b h r = rw (h.kind, h.processor, h.priority, h.state) r

pub tasks-IsPlaced :
    (tasks tasks' : List Task) (cpus : List Cpu) (free sleeping blocked zombie : List ℕ)
    (count boot : ℕ)
    → ((u : ℕ) → Alike (get_or tasks' u no_task) (get_or tasks u no_task))
    → Placed tasks cpus free sleeping blocked zombie count boot
    → Placed tasks' cpus free sleeping blocked zombie count boot
tasks-IsPlaced tasks tasks' cpus free sleeping blocked zombie count boot h v = record {
  listed = λ k u plain. v.listed k u plain ∙ ap one_if (sym (has_kind-Alike _ _ (h u) k));
  queued = λ c p u. v.queued c p u ∙ ap one_if (sym (in_queue-Alike _ _ (h u) c p));
  ready = λ u. Ready-Alike cpus count _ _ (h u) (v.ready u);
  shaped = v.shaped;
  sized = v.sized;
  bounded = v.bounded;
  booted = v.booted;
}

pub cpus-IsPlaced :
    (tasks : List Task) (cpus cpus' : List Cpu) (free sleeping blocked zombie : List ℕ)
    (count boot : ℕ)
    → length cpus' ≡ length cpus
    → ((c : ℕ) → AlikeCpu (get_or cpus' c no_cpu) (get_or cpus c no_cpu))
    → Placed tasks cpus free sleeping blocked zombie count boot
    → Placed tasks cpus' free sleeping blocked zombie count boot
unfolding IsCpu
cpus-IsPlaced tasks cpus cpus' free sleeping blocked zombie count boot len h v = record {
  listed = v.listed;
  queued = λ c p u. ap (λ queues. occurs (get_or queues p []) u) (h c).runnable ∙ v.queued c p u;
  ready = λ u. (
    λ k.
        let (a, b, c, d) = (v.ready u).0 k in
        (a, b, c, (h (get_or tasks u no_task).assigned_cpu).online ∙ d),
    (v.ready u).1,
  );
  shaped = λ c lt.
      let (a, b) = v.shaped c (omega (arith, len)) in ((h c).id ∙ a, ap length (h c).runnable ∙ b);
  sized = omega (arith, len, v.sized);
  bounded = λ c on. v.bounded c (sym (h c).online ∙ on);
  booted = (v.booted.0, (h boot).online ∙ v.booted.1);
}
