-- ===== src/Registry/Chosen.antt =====
-- Which candidate kernel/kernel/module.c picks: the best of those whose probe succeeded.
use dfos.Base.{
  ℕ, zero, suc, ◌+◌, ◌≤◌, ◌<◌, List, [], ◌∷◌, Option, none, some, ltb, ◌≡◌, refl, ap, sym, arith,
  if◌then◌else◌, Bool-cases, inl, inr, subst, ◌⊎◌, one_of,
}
use dfos.Registry.{
  ModuleKind, Entry, is_open, better, try_candidate, find_best_from, module_find_best_candidate,
  module_is_supported,
}

module _ {W : Type 0} where
  -- What the probes of the open entries answered, one after the other: the priority of a module
  -- that is supported.
  abbrev pub answer : ModuleKind → Entry W → W → Option ℕ
  answer kind e w =
      if is_open kind e
      then (if (module_is_supported e.descriptor w).0 then some e.descriptor.priority else none)
      else none

  abbrev pub after_probe : ModuleKind → Entry W → W → W
  after_probe kind e w = if is_open kind e then (module_is_supported e.descriptor w).1 else w

  unfoldable pub answers : ModuleKind → List (Entry W) → W → List (Option ℕ)
  answers kind [] w = []
  answers kind (e ∷ entries) w = answer kind e w ∷ answers kind entries (after_probe kind e w)

-- Entry `k` of the list answered the priority `p`.
unfoldable pub Answered : List (Option ℕ) → ℕ → ℕ → Type 0
Answered [] k p = ⊥
Answered (a ∷ rest) zero p = a ≡ some p
Answered (a ∷ rest) (suc k) p = Answered rest k p

-- The highest priority that was answered, and of those the first entry; none if there is no answer.
unfoldable pub IsHighest : List (Option ℕ) → Option (ℕ × ℕ) → Type 0
IsHighest list none = (k p : ℕ) → Answered list k p → ⊥
IsHighest list (some (index, p)) =
    Answered list index p × ((k q : ℕ) → Answered list k q → (q ≤ p) × (q ≡ p → index ≤ k))

-- Entry `i` answered `p`, where `best` is from before entry `index`.
Candidate : Option (ℕ × ℕ) → ℕ → List (Option ℕ) → ℕ → ℕ → Type 0
Candidate best index list i p =
    (best ≡ some (i, p)) ⊎ ((k : ℕ) × (i ≡ index + k) × Answered list k p)

-- The highest of these, and of the highest ones the first.
Highest : Option (ℕ × ℕ) → ℕ → List (Option ℕ) → Option (ℕ × ℕ) → Type 0
Highest best index list none = (i p : ℕ) → Candidate best index list i p → ⊥
Highest best index list (some (i, p)) =
    Candidate best index list i p
    × ((j q : ℕ) → Candidate best index list j q → (q ≤ p) × (q ≡ p → i ≤ j))

-- The choice after one more answer.
abbrev next : Option (ℕ × ℕ) → ℕ → Option ℕ → Option (ℕ × ℕ)
next best index none = best
next best index (some p) = better best index p

-- Each candidate of the one is a candidate of the other, or one of the other beats it.
Covers : Option (ℕ × ℕ) → ℕ → List (Option ℕ) → Option (ℕ × ℕ) → ℕ → List (Option ℕ) → Type 0
Covers best index list best' index' list' =
    (j q : ℕ)
    → Candidate best index list j q
    → (i : ℕ) × (p : ℕ) × Candidate best' index' list' i p × (q ≤ p) × (q ≡ p → i ≤ j)

Highest-Covers :
    (best best' : Option (ℕ × ℕ)) (index index' : ℕ) (list list' : List (Option ℕ))
    (r : Option (ℕ × ℕ))
    → Covers best index list best' index' list'
    → ((j q : ℕ) → Candidate best' index' list' j q → Candidate best index list j q)
    → Highest best' index' list' r
    → Highest best index list r
unfolding Highest Covers
Highest-Covers best best' index index' list list' none up down h =
    λ j q c. let (i, p, c', le, first) = up j q c in h i p c'
Highest-Covers best best' index index' list list' (some (i, p)) up down (c, h) = (
  down i p c,
  λ j q d.
      let (k, u, e, le, first) = up j q d in
      let (le', first') = h k u e in
      (
        omega (arith, le, le'),
        λ same.
            let a = first (omega (arith, le, le', same)) in
            let b = first' (omega (arith, le, le', same)) in omega (arith, a, b),
      ),
)

no_answer : (q : ℕ) → none ≡ some q → ⊥
no_answer q e = cc

same_answer : (p q : ℕ) → some p ≡ some q → p ≡ q
same_answer p q e = ap (λ (o : Option ℕ). elim o [ none ↦ p | some w ↦ w ]) e

abbrev choice : ℕ → ℕ → Option (ℕ × ℕ)
choice index p = some (index, p)

parts : (b bp j q : ℕ) → choice b bp ≡ choice j q → (b ≡ j) × (bp ≡ q)
parts b bp j q e = (
  ap (λ (o : Option (ℕ × ℕ)). elim o [ none ↦ b | some w ↦ w.0 ]) e,
  ap (λ (o : Option (ℕ × ℕ)). elim o [ none ↦ bp | some w ↦ w.1 ]) e,
)

module _ (index : ℕ) (list : List (Option ℕ)) where
  skip :
      (best : Option (ℕ × ℕ)) (a : Option ℕ) (j q : ℕ)
      → Candidate best (index + 1) list j q
      → Candidate best index (a ∷ list) j q
  unfolding Candidate Answered
  skip best a j q (inl e) = inl e
  skip best a j q (inr (k, e, h)) = inr (suc k, omega (arith, e), h)

  beaten :
      (best : Option (ℕ × ℕ)) (j q : ℕ)
      → Candidate best (index + 1) list j q
      → (i : ℕ) × (p : ℕ) × Candidate best (index + 1) list i p × (q ≤ p) × (q ≡ p → i ≤ j)
  beaten best j q c = (j, q, c, omega arith, λ _. omega arith)

  later :
      (best : Option (ℕ × ℕ)) (j k q : ℕ)
      → j ≡ index + suc k
      → Answered list k q
      → (i : ℕ) × (p : ℕ) × Candidate best (index + 1) list i p × (q ≤ p) × (q ≡ p → i ≤ j)
  unfolding Candidate
  later best j k q e h = beaten best j q (inr (k, omega (arith, e), h))

  head_none : (best : Option (ℕ × ℕ)) → Covers best index (none ∷ list) best (index + 1) list
  unfolding Covers Candidate Answered
  head_none best j q (inl e) = beaten best j q (inl e)
  head_none best j q (inr (zero, e, h)) = absurd (no_answer q h)
  head_none best j q (inr (suc k, e, h)) = later best j k q e h

  -- The new entry becomes the best one.
  taken :
      (best : Option (ℕ × ℕ)) (p : ℕ)
      → ((b bp : ℕ) → best ≡ some (b, bp) → bp < p)
      → Covers best index (some p ∷ list) (some (index, p)) (index + 1) list
  unfolding Covers Candidate Answered
  taken best p less j q (inl e) =
      (index, p, inl refl, omega (arith, less j q e), λ f. absurd (omega (arith, less j q e, f)))
  taken best p less j q (inr (zero, e, h)) =
      (index, p, inl refl, omega (arith, same_answer p q h), λ f. omega (arith, e))
  taken best p less j q (inr (suc k, e, h)) = later (some (index, p)) j k q e h

  taken_down :
      (best : Option (ℕ × ℕ)) (p j q : ℕ)
      → Candidate (some (index, p)) (index + 1) list j q
      → Candidate best index (some p ∷ list) j q
  unfolding Candidate Answered
  taken_down best p j q (inl e) =
      let (f, g) = parts index p j q e in inr (0, omega (arith, f), ap some g)
  taken_down best p j q (inr (k, e, h)) = inr (suc k, omega (arith, e), h)

  -- The best one stays.
  kept :
      (b bp p : ℕ)
      → p ≤ bp
      → b < index
      → Covers (some (b, bp)) index (some p ∷ list) (some (b, bp)) (index + 1) list
  unfolding Covers Candidate Answered
  kept b bp p le lt j q (inl e) = beaten (some (b, bp)) j q (inl e)
  kept b bp p le lt j q (inr (zero, e, h)) =
      (b, bp, inl refl, omega (arith, same_answer p q h, le), λ f. omega (arith, e, lt))
  kept b bp p le lt j q (inr (suc k, e, h)) = later (some (b, bp)) j k q e h

-- The best so far stands before the entry.
Before : Option (ℕ × ℕ) → ℕ → Type 0
Before none index = Unit
Before (some (b, bp)) index = b < index

Highest-next :
    (index : ℕ) (list : List (Option ℕ)) (best : Option (ℕ × ℕ)) (a : Option ℕ) (r : Option (ℕ × ℕ))
    → Before best index
    → Highest (next best index a) (index + 1) list r
    → Highest best index (a ∷ list) r
unfolding Before better
Highest-next index list best none r lt h =
    Highest-Covers best best index (index + 1) (none ∷ list) list r (head_none index list best)
      (skip index list best none) h
Highest-next index list none (some p) r lt h =
    Highest-Covers none (some (index, p)) index (index + 1) (some p ∷ list) list r
      (taken index list none p (λ b bp e. cc)) (taken_down index list none p) h
Highest-next index list (some (b, bp)) (some p) r lt h = elim (Bool-cases (ltb bp p)) [
  | inl t ↦
      Highest-Covers (some (b, bp)) (some (index, p)) index (index + 1) (some p ∷ list) list r
        (taken index list (some (b, bp)) p
          (λ c cp e. let (f, g) = parts b bp c cp e in ground (arith, t, g)))
        (taken_down index list (some (b, bp)) p)
        (subst (λ test. Highest (if test then some (index, p) else some (b, bp)) (index + 1) list r)
          t h)
  | inr u ↦
      Highest-Covers (some (b, bp)) (some (b, bp)) index (index + 1) (some p ∷ list) list r
        (kept index list b bp p (ground (arith, u)) lt) (skip index list (some (b, bp)) (some p))
        (subst (λ test. Highest (if test then some (index, p) else some (b, bp)) (index + 1) list r)
          u h)
]

Before-next :
    (index : ℕ) (best : Option (ℕ × ℕ)) (a : Option ℕ)
    → Before best index
    → Before (next best index a) (index + 1)
unfolding Before better
Before-next index none none h = h
Before-next index (some (b, bp)) none h = omega (arith, h)
Before-next index none (some p) h = omega arith
Before-next index (some (b, bp)) (some p) h =
    one_of (λ o. Before o (index + 1)) (ltb bp p) (some (index, p)) (some (b, bp))
      (λ t. omega arith) (λ t. omega (arith, h))

nothing_more : (index : ℕ) (best : Option (ℕ × ℕ)) → Highest best index [] best
unfolding Highest Candidate Answered
nothing_more index none = λ i p c. elim c [ inl e ↦ cc | inr (k, e, h) ↦ h ]
nothing_more index (some (b, bp)) = (
  inl refl,
  λ j q c. elim c [
    | inl e ↦ let (f, g) = parts b bp j q e in (omega (arith, g), λ _. omega (arith, f))
    | inr (k, e, h) ↦ absurd h
  ],
)

plain : (list : List (Option ℕ)) (r : Option (ℕ × ℕ)) → Highest none 0 list r → IsHighest list r
unfolding Highest Candidate IsHighest
plain list none h = λ k p a. h k p (inr (k, omega arith, a))
plain list (some (i, p)) (inl e, h) = cc
plain list (some (i, p)) (inr (k, e, a), h) =
    (subst (λ w. Answered list w p) (omega (arith, e)) a, λ j q b. h j q (inr (j, omega arith, b)))

module _ {W : Type 0} (kind : ModuleKind) where
  tried :
      (e : Entry W) (index : ℕ) (best : Option (ℕ × ℕ)) (w : W)
      → (try_candidate kind e index best w).0 ≡ next best index (answer kind e w)
  unfolding try_candidate
  tried e index best w = elim (Bool-cases (is_open kind e)) [
    | inr u ↦ rw (u) refl
    | inl t ↦ elim (Bool-cases (module_is_supported e.descriptor w).0) [
      | inl s ↦ rw (t, s) refl
      | inr n ↦ rw (t, n) refl
    ]
  ]

  tried_world :
      (e : Entry W) (index : ℕ) (best : Option (ℕ × ℕ)) (w : W)
      → (try_candidate kind e index best w).1 ≡ after_probe kind e w
  unfolding try_candidate
  tried_world e index best w = elim (Bool-cases (is_open kind e)) [
    | inr u ↦ rw (u) refl
    | inl t ↦ rw (t) refl
  ]

  find_best_from-Highest :
      (entries : List (Entry W)) (index : ℕ) (best : Option (ℕ × ℕ)) (w : W)
      → Before best index
      → Highest best index (answers kind entries w) (find_best_from kind entries index best w).0
  unfolding find_best_from answers
  find_best_from-Highest [] index best w lt = nothing_more index best
  find_best_from-Highest (e ∷ entries) index best w lt =
      let list = answers kind entries (after_probe kind e w) in
      let best' = next best index (answer kind e w) in
      subst
        (λ b.
          Highest best index (answer kind e w ∷ list)
            (find_best_from kind entries (index + 1) b (try_candidate kind e index best w).1).0)
        (sym (tried e index best w))
        (subst
          (λ w'.
            Highest best index (answer kind e w ∷ list)
              (find_best_from kind entries (index + 1) best' w').0)
          (sym (tried_world e index best w))
          (Highest-next index list best (answer kind e w) _ lt (
            find_best_from-Highest entries (index + 1) best' (after_probe kind e w)
              (Before-next index best (answer kind e w) lt))))

  -- The search finds the highest priority that was answered, and the first of these.
  pub find_best-IsHighest :
      (entries : List (Entry W)) (w : W)
      → IsHighest (answers kind entries w) (module_find_best_candidate kind entries w).0
  unfolding module_find_best_candidate Before
  find_best-IsHighest entries w = plain _ _ (find_best_from-Highest entries 0 none w (record {}))
