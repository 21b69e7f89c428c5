-- ===== src/Registry/Candidate.antt =====
-- The candidate that kernel/kernel/module.c picks, and what an attempt does to the entries.
use dfos.Base.{
  ℕ, zero, suc, ◌+◌, true, List, [], ◌∷◌, Option, none, some, ltb, ◌≡◌, refl, arith, if◌then◌else◌,
  Bool-cases, inl, inr, subst, ◌⊎◌,
}
use dfos.Registry.{
  ModuleKind, Entry, is_open, better, try_candidate, find_best_from, module_find_best_candidate,
  module_active_count, change_entry, mark_attempted, mark_active, module_is_supported,
}

module _ {W : Type 0} where
  -- The entry at an index is one that the loop probes.
  unfoldable pub IsOpen : ModuleKind → List (Entry W) → ℕ → Type 0
  IsOpen kind [] index = ⊥
  IsOpen kind (e ∷ entries) zero = is_open kind e ≡ true
  IsOpen kind (e ∷ entries) (suc index) = IsOpen kind entries index

  -- How many entries were not attempted yet.
  unfoldable pub unattempted : List (Entry W) → ℕ
  unattempted [] = 0
  unattempted (e ∷ entries) = (if e.attempted then 0 else 1) + unattempted entries

  -- The best found is the earlier one or an open entry from `index` on.
  unfoldable OpenFrom : ModuleKind → List (Entry W) → ℕ → Option (ℕ × ℕ) → Option (ℕ × ℕ) → Type 0
  OpenFrom kind entries index best none = best ≡ none
  OpenFrom kind entries index best (some (i, p)) =
      (best ≡ some (i, p)) ⊎ ((k : ℕ) × (i ≡ index + k) × IsOpen kind entries k)

  pub unattempted-change_entry :
      (kind : ModuleKind) (entries : List (Entry W)) (index : ℕ)
      → IsOpen kind entries index
      → unattempted (change_entry mark_attempted entries index) + 1 ≡ unattempted entries
  unfolding unattempted change_entry IsOpen is_open
  unattempted-change_entry kind [] index h = absurd h
  unattempted-change_entry kind (e ∷ entries) zero h = ground arith
  unattempted-change_entry kind (e ∷ entries) (suc index) h =
      omega (arith, unattempted-change_entry kind entries index h)

  pub unattempted-mark_active :
      (entries : List (Entry W)) (index : ℕ)
      → unattempted (change_entry mark_active entries index) ≡ unattempted entries
  unfolding unattempted change_entry
  unattempted-mark_active [] index = refl
  unattempted-mark_active (e ∷ entries) zero = refl
  unattempted-mark_active (e ∷ entries) (suc index) =
      omega (arith, unattempted-mark_active entries index)

  pub active_count-mark_attempted :
      (kind : ModuleKind) (entries : List (Entry W)) (index : ℕ)
      → module_active_count kind (change_entry mark_attempted entries index)
        ≡ module_active_count kind entries
  unfolding module_active_count change_entry
  active_count-mark_attempted kind [] index = refl
  active_count-mark_attempted kind (e ∷ entries) zero = refl
  active_count-mark_attempted kind (e ∷ entries) (suc index) =
      omega (arith, active_count-mark_attempted kind entries index)

  pub active_count-mark_active :
      (kind : ModuleKind) (entries : List (Entry W)) (index : ℕ)
      → IsOpen kind entries index
      → module_active_count kind
          (change_entry mark_active (change_entry mark_attempted entries index) index)
        ≡ module_active_count kind entries + 1
  unfolding module_active_count change_entry IsOpen is_open
  active_count-mark_active kind [] index h = absurd h
  active_count-mark_active kind (e ∷ entries) zero h = ground arith
  active_count-mark_active kind (e ∷ entries) (suc index) h =
      omega (arith, active_count-mark_active kind entries index h)

  OpenFrom-later :
      (kind : ModuleKind) (e : Entry W) (entries : List (Entry W)) (index : ℕ)
      (best best' r : Option (ℕ × ℕ))
      → OpenFrom kind (e ∷ entries) index best best'
      → OpenFrom kind entries (index + 1) best' r
      → OpenFrom kind (e ∷ entries) index best r
  unfolding OpenFrom IsOpen
  OpenFrom-later kind e entries index best best' none h k =
      subst (OpenFrom kind (e ∷ entries) index best) k h
  OpenFrom-later kind e entries index best best' (some (i, p)) h (inl same) =
      subst (OpenFrom kind (e ∷ entries) index best) same h
  OpenFrom-later kind e entries index best best' (some (i, p)) h (inr (k, at, o)) =
      inr (suc k, omega arith, o)

  OpenFrom-refl :
      (kind : ModuleKind) (entries : List (Entry W)) (index : ℕ) (best : Option (ℕ × ℕ))
      → OpenFrom kind entries index best best
  unfolding OpenFrom
  OpenFrom-refl kind entries index none = refl
  OpenFrom-refl kind entries index (some r) = inl refl

  better-OpenFrom :
      (kind : ModuleKind) (e : Entry W) (entries : List (Entry W)) (index priority : ℕ)
      (best : Option (ℕ × ℕ))
      → is_open kind e ≡ true
      → OpenFrom kind (e ∷ entries) index best (better best index priority)
  unfolding better OpenFrom IsOpen
  better-OpenFrom kind e entries index priority none h = inr (0, omega arith, h)
  better-OpenFrom kind e entries index priority (some (i, p)) h =
      elim (Bool-cases (ltb p priority)) [
        | inl t ↦ rw (t) (inr (0, omega arith, h))
        | inr u ↦ rw (u) (inl refl)
      ]

  try_candidate-OpenFrom :
      (kind : ModuleKind) (e : Entry W) (entries : List (Entry W)) (index : ℕ)
      (best : Option (ℕ × ℕ)) (w : W)
      → OpenFrom kind (e ∷ entries) index best (try_candidate kind e index best w).0
  unfolding try_candidate
  try_candidate-OpenFrom kind e entries index best w = elim (Bool-cases (is_open kind e)) [
    | inr u ↦ rw (u) (OpenFrom-refl kind (e ∷ entries) index best)
    | inl t ↦ elim (Bool-cases (module_is_supported e.descriptor w).0) [
      | inl s ↦ rw (t, s) (better-OpenFrom kind e entries index e.descriptor.priority best t)
      | inr n ↦ rw (t, n) (OpenFrom-refl kind (e ∷ entries) index best)
    ]
  ]

  find_best_from-OpenFrom :
      (kind : ModuleKind) (entries : List (Entry W)) (index : ℕ) (best : Option (ℕ × ℕ)) (w : W)
      → OpenFrom kind entries index best (find_best_from kind entries index best w).0
  unfolding find_best_from
  find_best_from-OpenFrom kind [] index best w = OpenFrom-refl kind [] index best
  find_best_from-OpenFrom kind (e ∷ entries) index best w =
      let r = try_candidate kind e index best w in
      OpenFrom-later kind e entries index best r.0 _
        (try_candidate-OpenFrom kind e entries index best w)
        (find_best_from-OpenFrom kind entries (index + 1) r.0 r.1)

  OpenFrom-IsOpen :
      (kind : ModuleKind) (entries : List (Entry W)) (index p : ℕ)
      → OpenFrom kind entries 0 none (some (index, p))
      → IsOpen kind entries index
  unfolding OpenFrom
  OpenFrom-IsOpen kind entries index p (inl e) = cc
  OpenFrom-IsOpen kind entries index p (inr (k, e, o)) =
      let at : k ≡ index = omega arith in subst (IsOpen kind entries) at o

  pub find_best-IsOpen :
      (kind : ModuleKind) (entries : List (Entry W)) (w : W) (index p : ℕ)
      → (module_find_best_candidate kind entries w).0 ≡ some (index, p)
      → IsOpen kind entries index
  unfolding module_find_best_candidate
  find_best-IsOpen kind entries w index p e =
      OpenFrom-IsOpen kind entries index p
        (subst (OpenFrom kind entries 0 none) e (find_best_from-OpenFrom kind entries 0 none w))
