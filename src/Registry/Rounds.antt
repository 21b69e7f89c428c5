-- ===== src/Registry/Rounds.antt =====
-- What the rounds of the activation loops in kernel/kernel/module.c do.
use dfos.Base.{ℕ, ◌+◌, Bool, true, false, List, none, some, ◌≡◌, if◌then◌else◌}
use dfos.Registry.{
  ModuleKind, Entry, module_find_best_candidate, change_entry, mark_attempted, mark_active,
  activate_entry,
}
use dfos.Registry.Chosen.{answers, IsHighest}

-- The entry is marked as attempted, and as active if its callback answered true.
abbrev pub marked : {W : Type 0} → Bool → List (Entry W) → ℕ → List (Entry W)
marked done entries index =
    if done
    then change_entry mark_active (change_entry mark_attempted entries index) index
    else change_entry mark_attempted entries index

-- One round: the callback of the best candidate answered `done`, and its entry alone was marked.
unfoldable pub Tried :
    {W : Type 0} → ModuleKind → List (Entry W) → W → Bool → List (Entry W) → W → Type 0
Tried kind entries w done entries' w' =
    (index : ℕ) × (p : ℕ) × IsHighest (answers kind entries w) (some (index, p))
    × ((activate_entry entries index (module_find_best_candidate kind entries w).1).0 ≡ done)
    × ((activate_entry entries index (module_find_best_candidate kind entries w).1).1 ≡ w')
    × (entries' ≡ marked done entries index)

-- Rounds until no candidate is left, with the number of those that succeeded.
pub data Rounds (W : Type 0) (kind : ModuleKind)
    : List (Entry W) → W → ℕ → List (Entry W) → W → Type 0 where
  stop :
      {entries : List (Entry W)} {w w' : W}
      → IsHighest (answers kind entries w) none
      → Rounds W kind entries w 0 entries w'
  round :
      {entries entries' entries'' : List (Entry W)} {w w' w'' : W} {n m : ℕ} (done : Bool)
      → Tried kind entries w done entries' w'
      → n ≡ (if done then m + 1 else m)
      → Rounds W kind entries' w' m entries'' w''
      → Rounds W kind entries w n entries'' w''

-- Rounds until the first that succeeds, or until no candidate is left.
pub data First (W : Type 0) (kind : ModuleKind)
    : List (Entry W) → W → Bool → List (Entry W) → W → Type 0 where
  none_left :
      {entries : List (Entry W)} {w w' : W}
      → IsHighest (answers kind entries w) none
      → First W kind entries w false entries w'
  found :
      {entries entries' : List (Entry W)} {w w' : W}
      → Tried kind entries w true entries' w'
      → First W kind entries w true entries' w'
  refused :
      {entries entries' entries'' : List (Entry W)} {w w' w'' : W} {done : Bool}
      → Tried kind entries w false entries' w'
      → First W kind entries' w' done entries'' w''
      → First W kind entries w done entries'' w''
