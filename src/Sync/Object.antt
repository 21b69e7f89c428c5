-- ===== src/Sync/Object.antt =====
-- Reference counts and objects of kernel/kernel/sync.c. `none` is a panic. An object's release acts
-- on a world that is a parameter.
use dfos.Base.{ℕ, Bool, Option, none, some, ◌==◌, if◌then◌else◌}
use dfos.Base.Words.{add32, sub32}
use dfos.Scheduler.Select.{uint_max}

-- The value after the exchange, which the code computes from the one before.
unfoldable pub atomic_add_u32 : ℕ → ℕ → ℕ
atomic_add_u32 target value = add32 target value

unfoldable pub atomic_sub_u32 : ℕ → ℕ → ℕ
atomic_sub_u32 target value = sub32 target value

unfoldable pub kref_init : ℕ → ℕ
kref_init initial_value = initial_value

unfoldable pub kref_get : ℕ → Option ℕ
kref_get refcount =
    let new_value = atomic_add_u32 refcount 1 in if new_value == 0 then none else some new_value

-- Whether that was the last reference, and the count.
unfoldable pub kref_put : ℕ → Option (Bool × ℕ)
kref_put refcount =
    let new_value = atomic_sub_u32 refcount 1 in
    if new_value == uint_max then none else some (new_value == 0, new_value)

pub record Object (W : Type 0) : Type 0 where
  pub refcount : ℕ
  pub release : Option (W → W)

module _ {W : Type 0} where
  unfoldable pub kobject_init : Option (W → W) → Object W
  kobject_init release = record { refcount = kref_init 1; release = release }

  unfoldable pub kobject_get : Object W → Option (Object W)
  kobject_get object = elim (kref_get object.refcount) [
    | none ↦ none
    | some refcount ↦ some (record object { refcount = refcount })
  ]

  abbrev pub call_release : Option (W → W) → W → W
  call_release none world = world
  call_release (some release) world = release world

  unfoldable pub kobject_put : Object W → W → Option (Object W × W)
  kobject_put object world = elim (kref_put object.refcount) [
    | none ↦ none
    | some (last, refcount) ↦ some (
      record object { refcount = refcount },
      if last then call_release object.release world else world,
    )
  ]
