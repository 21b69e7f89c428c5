-- ===== src/Registry.antt =====
-- The registry of driver modules (kernel/kernel/module.c). The probe and activate callbacks act on
-- a world `W`, which stands for the hardware and the drivers' own state; they leave the registry
-- alone. Its three arrays are one list of entries, of which there are `registered_module_count`.
pub mod Chosen
pub mod Rounds
pub mod Candidate
pub mod Activate
mod Tests
use dfos.Base.{
  ℕ, zero, suc, ◌+◌, Bool, true, false, ◌&&◌, ◌||◌, not, List, [], ◌∷◌, ◌++◌, Option, none, some,
  ltb, leb, ◌==◌, if◌then◌else◌, length,
}

abbrev pub module_registry_capacity : ℕ
module_registry_capacity = 32

pub data ModuleKind : Type 0 where
  console : ModuleKind
  input : ModuleKind
  irq_controller : ModuleKind
  timer : ModuleKind
  storage_controller : ModuleKind

-- The value of the enumeration.
unfoldable pub kind_value : ModuleKind → ℕ
kind_value console = 0
kind_value input = 1
kind_value irq_controller = 2
kind_value timer = 3
kind_value storage_controller = 4

-- The name is printed only. A missing callback is `none`.
pub record ModuleDescriptor (W : Type 0) : Type 0 where
  pub kind : ModuleKind
  pub priority : ℕ
  pub probe : Option (W → Bool × W)
  pub activate : Option (W → Bool × W)

pub record Entry (W : Type 0) : Type 0 where
  pub descriptor : ModuleDescriptor W
  pub active : Bool
  pub attempted : Bool

-- The best so far is its index and its priority.
unfoldable pub better : Option (ℕ × ℕ) → ℕ → ℕ → Option (ℕ × ℕ)
better none index priority = some (index, priority)
better (some (best_index, best_priority)) index priority =
    if ltb best_priority priority then some (index, priority) else some (best_index, best_priority)

module _ {W : Type 0} where
  unfoldable pub module_is_supported : ModuleDescriptor W → W → Bool × W
  module_is_supported m w = elim m.probe [ none ↦ (true, w) | some probe ↦ probe w ]

  unfoldable pub module_matches_kind : ModuleDescriptor W → ModuleKind → Bool
  module_matches_kind m kind = kind_value m.kind == kind_value kind

  -- Whether the loop gets as far as to probe the module.
  unfoldable pub is_open : ModuleKind → Entry W → Bool
  is_open kind e = not ((e.active || e.attempted) || not (module_matches_kind e.descriptor kind))

  unfoldable pub try_candidate : ModuleKind → Entry W → ℕ → Option (ℕ × ℕ) → W → Option (ℕ × ℕ) × W
  try_candidate kind e index best w =
      let (supported, w') = module_is_supported e.descriptor w in
      if is_open kind e
      then (if supported then better best index e.descriptor.priority else best, w')
      else (best, w)

  -- The loop from entry `index` on.
  unfoldable pub find_best_from :
      ModuleKind → List (Entry W) → ℕ → Option (ℕ × ℕ) → W → Option (ℕ × ℕ) × W
  find_best_from kind [] index best w = (best, w)
  find_best_from kind (e ∷ entries) index best w =
      let (best', w') = try_candidate kind e index best w in
      find_best_from kind entries (index + 1) best' w'

  unfoldable pub module_find_best_candidate : ModuleKind → List (Entry W) → W → Option (ℕ × ℕ) × W
  module_find_best_candidate kind entries w = find_best_from kind entries 0 none w

  unfoldable pub module_register : List (Entry W) → Option (ModuleDescriptor W) → List (Entry W)
  module_register entries none = entries
  module_register entries (some m) =
      if leb module_registry_capacity (length entries)
      then entries
      else entries ++ (record { descriptor = m; active = false; attempted = false } ∷ [])

  unfoldable pub change_entry : (Entry W → Entry W) → List (Entry W) → ℕ → List (Entry W)
  change_entry f [] index = []
  change_entry f (e ∷ entries) zero = f e ∷ entries
  change_entry f (e ∷ entries) (suc index) = e ∷ change_entry f entries index

  abbrev pub mark_attempted : Entry W → Entry W
  mark_attempted e = record e { attempted = true }

  abbrev pub mark_active : Entry W → Entry W
  mark_active e = record e { active = true }

  unfoldable pub run_activate : ModuleDescriptor W → W → Bool × W
  run_activate m w = elim m.activate [ none ↦ (false, w) | some activate ↦ activate w ]

  -- The callback of the entry with this index.
  unfoldable pub activate_entry : List (Entry W) → ℕ → W → Bool × W
  activate_entry [] index w = (false, w)
  activate_entry (e ∷ entries) zero w = run_activate e.descriptor w
  activate_entry (e ∷ entries) (suc index) w = activate_entry entries index w

  -- One round of the loops: what the candidate's callback answered, or `none` without a candidate.
  unfoldable pub attempt_best : ModuleKind → List (Entry W) → W → Option Bool × List (Entry W) × W
  attempt_best kind entries w =
      let (found, w') = module_find_best_candidate kind entries w in
      elim found [
        | none ↦ (none, entries, w')
        | some best ↦
            let (done, w'') = activate_entry entries best.0 w' in
            let attempted = change_entry mark_attempted entries best.0 in
            (some done, if done then change_entry mark_active attempted best.0 else attempted, w'')
      ]

  -- `none` if the fuel runs out.
  unfoldable pub module_activate_best :
      ModuleKind → ℕ → List (Entry W) → W → Option (Bool × List (Entry W) × W)
  module_activate_best kind zero entries w = none
  module_activate_best kind (suc fuel) entries w =
      let (outcome, entries', w') = attempt_best kind entries w in
      let again = module_activate_best kind fuel entries' w' in
      elim outcome [
        | none ↦ some (false, entries', w')
        | some done ↦ if done then some (true, entries', w') else again
      ]

  unfoldable pub module_activate_all :
      ModuleKind → ℕ → ℕ → List (Entry W) → W → Option (ℕ × List (Entry W) × W)
  module_activate_all kind zero activated entries w = none
  module_activate_all kind (suc fuel) activated entries w =
      let (outcome, entries', w') = attempt_best kind entries w in
      elim outcome [
        | none ↦ some (activated, entries', w')
        | some done ↦
            module_activate_all kind fuel (if done then activated + 1 else activated) entries' w'
      ]

  unfoldable pub module_registered_count : ModuleKind → List (Entry W) → ℕ
  module_registered_count kind [] = 0
  module_registered_count kind (e ∷ entries) =
      (if module_matches_kind e.descriptor kind then 1 else 0)
      + module_registered_count kind entries

  unfoldable pub module_active_count : ModuleKind → List (Entry W) → ℕ
  module_active_count kind [] = 0
  module_active_count kind (e ∷ entries) =
      (if e.active && module_matches_kind e.descriptor kind then 1 else 0)
      + module_active_count kind entries
