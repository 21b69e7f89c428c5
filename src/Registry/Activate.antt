-- ===== src/Registry/Activate.antt =====
-- The activation loops of kernel/kernel/module.c.
use dfos.Base.{
  ℕ, zero, suc, ◌+◌, ◌≤◌, ◌<◌, Bool, true, false, List, Option, none, some, ◌≡◌, refl, arith,
  if◌then◌else◌, Bool-cases, Option-cases, inl, inr, ap, subst, Returns, Returns-mono, sym,
}
use dfos.Registry.{
  ModuleKind, Entry, module_find_best_candidate, module_active_count, module_activate_best,
  module_activate_all, attempt_best, change_entry, mark_attempted, activate_entry,
}
use dfos.Registry.Rounds.{Tried, Rounds, First}
use dfos.Registry.Chosen.{answers, IsHighest, find_best-IsHighest}
use dfos.Registry.Candidate.{
  unattempted, unattempted-change_entry, unattempted-mark_active, active_count-mark_attempted,
  active_count-mark_active, find_best-IsOpen,
}

module _ {W : Type 0} (kind : ModuleKind) where
  -- A round without a candidate changes no entry; any other attempts one more entry.
  unfoldable IsAttempt : List (Entry W) → W → Option Bool × List (Entry W) × W → Type 0
  IsAttempt entries w (none, entries', w') =
      (entries' ≡ entries)
      × (module_find_best_candidate kind entries w ≡ (none, w'))
      × IsHighest (answers kind entries w) none
  IsAttempt entries w (some done, entries', w') =
      (unattempted entries' + 1 ≡ unattempted entries)
      × (module_active_count kind entries'
          ≡ module_active_count kind entries + (if done then 1 else 0))
      × Tried kind entries w done entries' w'

  attempt_best-IsAttempt :
      (entries : List (Entry W)) (w : W) → IsAttempt entries w (attempt_best kind entries w)
  unfolding attempt_best IsAttempt Tried
  attempt_best-IsAttempt entries w =
      let r = module_find_best_candidate kind entries w in
      let highest = find_best-IsHighest kind entries w in
      elim (Option-cases r.0) [
        | inl e ↦
            rw (e, attempt_best)
              (refl, ap (λ o. (o, r.1)) e, subst (IsHighest (answers kind entries w)) e highest)
        | inr ((index, p), e) ↦
            let o = find_best-IsOpen kind entries w index p e in
            let tried = change_entry mark_attempted entries index in
            elim (Bool-cases (activate_entry entries index r.1).0) [
              | inl t ↦
                  rw (e, t, attempt_best)
                    (
                      omega (
                        arith,
                        unattempted-mark_active tried index,
                        unattempted-change_entry kind entries index o,
                      ),
                      active_count-mark_active kind entries index o,
                      (
                        index,
                        p,
                        subst (IsHighest (answers kind entries w)) e highest,
                        t,
                        refl,
                        refl,
                      ),
                    )
              | inr u ↦
                  rw (e, u, attempt_best)
                    (
                      unattempted-change_entry kind entries index o,
                      omega (arith, active_count-mark_attempted kind entries index),
                      (
                        index,
                        p,
                        subst (IsHighest (answers kind entries w)) e highest,
                        u,
                        refl,
                        refl,
                      ),
                    )
            ]
      ]

  -- Nothing is left to try.
  pub IsExhausted : List (Entry W) → W → Type 0
  IsExhausted entries w' = (w : W) × (module_find_best_candidate kind entries w ≡ (none, w'))

  -- What `activated` rounds that succeeded did to the entries.
  unfoldable pub AllActivated : List (Entry W) → W → ℕ → ℕ × List (Entry W) × W → Type 0
  AllActivated entries w activated (n, entries', w') =
      (module_active_count kind entries' + activated ≡ module_active_count kind entries + n)
      × (unattempted entries' + n ≤ unattempted entries + activated)
      × IsExhausted entries' w'
      × ((k : ℕ) × (n ≡ activated + k) × Rounds W kind entries w k entries' w')

  all_step :
      (entries : List (Entry W)) (activated fuel : ℕ) (w : W) (r : Option Bool × List (Entry W) × W)
      → IsAttempt entries w r
      → unattempted entries < suc fuel
      → ((count : ℕ)
          → unattempted r.1 < fuel
          → Returns (module_activate_all kind fuel count r.1 r.2) (AllActivated r.1 r.2 count))
      → Returns
          (elim r.0 [
            | none ↦ some (activated, r.1, r.2)
            | some done ↦
                module_activate_all kind fuel (if done then activated + 1 else activated) r.1 r.2
          ])
          (AllActivated entries w activated)
  unfolding IsAttempt AllActivated IsExhausted
  all_step entries activated fuel w (none, entries', w') (same, e, over) lt again =
      subst
        (λ l.
          IsHighest (answers kind l w) none → AllActivated l w activated (activated, entries', w'))
        same
        (λ nobody. (
          refl,
          omega arith,
          (w, subst (λ l. module_find_best_candidate kind l w ≡ (none, w')) (sym same) e),
          (0, omega arith, Rounds.stop nobody),
        ))
        over
  all_step entries activated fuel w (some done, entries', w') (less, more, tried) lt again =
      let count = if done then activated + 1 else activated in
      Returns-mono (AllActivated entries' w' count) (AllActivated entries w activated) _
        (again count (omega arith))
        (λ (n, entries'', w'') (a, b, c, (k, e, rounds)). (
          ground (arith, a, more),
          ground (arith, b, less),
          c,
          (if done then k + 1 else k, ground (arith, e), Rounds.round done tried refl rounds),
        ))

  -- With more fuel than entries not attempted yet, `module_activate_all` returns. In each round
  -- the candidate is, of the entries of the kind that are neither active nor attempted and whose
  -- probe succeeds, the first with the highest priority; it is marked as attempted, and as active
  -- exactly if its callback answered true. The rounds end when there is no candidate; the count
  -- grows by the number of callbacks that answered true, which is the number of modules of the
  -- kind that became active.
  pub module_activate_all-AllActivated :
      (activated fuel : ℕ) (entries : List (Entry W)) (w : W)
      → unattempted entries < fuel
      → Returns
          (module_activate_all kind fuel activated entries w)
          (AllActivated entries w activated)
  unfolding module_activate_all
  module_activate_all-AllActivated activated zero entries w lt = absurd (omega arith)
  module_activate_all-AllActivated activated (suc fuel) entries w lt =
      let r = attempt_best kind entries w in
      all_step entries activated fuel w r (attempt_best-IsAttempt entries w) lt
        (λ count lt'. module_activate_all-AllActivated count fuel r.1 r.2 lt')

  -- What a successful or a failed activation of the best candidate did to the entries.
  unfoldable pub BestActivated : List (Entry W) → W → Bool × List (Entry W) × W → Type 0
  BestActivated entries w (done, entries', w') =
      (module_active_count kind entries'
        ≡ module_active_count kind entries + (if done then 1 else 0))
      × (unattempted entries' ≤ unattempted entries)
      × (done ≡ false → IsExhausted entries' w')
      × First W kind entries w done entries' w'

  best_step :
      (entries : List (Entry W)) (fuel : ℕ) (w : W) (r : Option Bool × List (Entry W) × W)
      → IsAttempt entries w r
      → unattempted entries < suc fuel
      → (unattempted r.1 < fuel
          → Returns (module_activate_best kind fuel r.1 r.2) (BestActivated r.1 r.2))
      → Returns
          (elim r.0 [
            | none ↦ some (false, r.1, r.2)
            | some done ↦
                if done then some (true, r.1, r.2) else module_activate_best kind fuel r.1 r.2
          ])
          (BestActivated entries w)
  unfolding IsAttempt BestActivated IsExhausted
  best_step entries fuel w (none, entries', w') (same, e, over) lt again =
      subst (λ l. IsHighest (answers kind l w) none → BestActivated l w (false, entries', w')) same
        (λ nobody. (
          omega arith,
          omega arith,
          λ _. (w, subst (λ l. module_find_best_candidate kind l w ≡ (none, w')) (sym same) e),
          First.none_left nobody,
        ))
        over
  best_step entries fuel w (some true, entries', w') (less, more, tried) lt again =
      (more, omega arith, λ e. cc, First.found tried)
  best_step entries fuel w (some false, entries', w') (less, more, tried) lt again =
      Returns-mono (BestActivated entries' w') (BestActivated entries w) _ (again (omega arith))
        (λ (done, entries'', w'') (a, b, c, first).
          (ground (arith, a, more), omega (arith, b, less), c, First.refused tried first))

  -- With more fuel than entries not attempted yet, `module_activate_best` returns. In each round
  -- the candidate is, of the entries of the kind that are neither active nor attempted and whose
  -- probe succeeds, the first with the highest priority; it is marked as attempted, and as active
  -- exactly if its callback answered true. The loop succeeds at the first callback that answers
  -- true, and fails once there is no candidate; the number of active modules of the kind grows by
  -- one or not at all.
  pub module_activate_best-BestActivated :
      (fuel : ℕ) (entries : List (Entry W)) (w : W)
      → unattempted entries < fuel
      → Returns (module_activate_best kind fuel entries w) (BestActivated entries w)
  unfolding module_activate_best
  module_activate_best-BestActivated zero entries w lt = absurd (omega arith)
  module_activate_best-BestActivated (suc fuel) entries w lt =
      let r = attempt_best kind entries w in
      best_step entries fuel w r (attempt_best-IsAttempt entries w) lt
        (module_activate_best-BestActivated fuel r.1 r.2)
