-- ===== src/Sync/Counted.antt =====
-- An object of kernel/kernel/sync.c is released with its last reference and at no other time.
use dfos.Base.{
  ℕ, zero, suc, ◌+◌, ◌^◌, ◌<◌, List, [], ◌∷◌, Option, none, some, ◌==◌, if◌then◌else◌, length, ◌≡◌,
  refl, ap, one_of, ◌∙◌, subst, arith,
}
use dfos.Base.Words.{add32, sub32}
use dfos.Scheduler.Select.{uint_max}
use dfos.Sync.Object.{
  Object, atomic_add_u32, atomic_sub_u32, kref_get, kref_put, kref_init, kobject_init, kobject_get,
  kobject_put, call_release,
}

pub data Use : Type 0 where
  get : Use
  put : Use

-- What a user may do: take and give back references while one is held.
unfoldable pub held_after : ℕ → List Use → Option ℕ
held_after held [] = some held
held_after zero (u ∷ uses) = none
held_after (suc held) (get ∷ uses) = held_after (suc held + 1) uses
held_after (suc held) (put ∷ uses) = held_after held uses

kref_get_lem : (n : ℕ) → suc n < 2 ^ 32 → kref_get n ≡ some (suc n)
unfolding kref_get atomic_add_u32
kref_get_lem n small =
    let same : add32 n 1 ≡ suc n = omega (arith, small) in
    rw (same) (
      one_of (λ r. r ≡ some (suc n)) (suc n == 0) none (some (suc n))
        (λ h. absurd (ground (arith, h))) (λ h. refl))

kref_put_lem : (n : ℕ) → suc n < 2 ^ 32 → kref_put (suc n) ≡ some (n == 0, n)
unfolding kref_put atomic_sub_u32
kref_put_lem n small =
    let same : sub32 (suc n) 1 ≡ n = omega (arith, small) in
    rw (same) (
      one_of (λ r. r ≡ some (n == 0, n)) (n == uint_max) none (some (n == 0, n))
        (λ h. absurd (ground (arith, h, small))) (λ h. refl))

module _ {W : Type 0} where
  unfoldable pub run_uses : List Use → Object W → W → Option (Object W × W)
  run_uses [] object world = some (object, world)
  run_uses (get ∷ uses) object world = elim (kobject_get object) [
    | none ↦ none
    | some object' ↦ run_uses uses object' world
  ]
  run_uses (put ∷ uses) object world = elim (kobject_put object world) [
    | none ↦ none
    | some (object', world') ↦ run_uses uses object' world'
  ]

  abbrev pub object_of : ℕ → Option (W → W) → Object W
  object_of refcount release = record { refcount = refcount; release = release }

  -- What is left of the world when so many references are.
  abbrev pub world_at : ℕ → Option (W → W) → W → W
  world_at left release world = if left == 0 then call_release release world else world

  abbrev pub result_of : ℕ → Option (W → W) → W → Option (Object W × W)
  result_of refcount release world = some (object_of refcount release, world)

  kobject_get_lem :
      (n : ℕ) (release : Option (W → W))
      → suc n < 2 ^ 32
      → kobject_get (object_of n release) ≡ some (object_of (suc n) release)
  unfolding kobject_get
  kobject_get_lem n release small = rw (kref_get_lem n small, kobject_get) refl

  kobject_put_lem :
      (n : ℕ) (release : Option (W → W)) (world : W)
      → suc n < 2 ^ 32
      → kobject_put (object_of (suc n) release) world
        ≡ result_of n release (world_at n release world)
  unfolding kobject_put
  kobject_put_lem n release world small = rw (kref_put_lem n small, kobject_put) refl

  -- Up to the last reference, nothing is released.
  pub run_uses-held_after :
      (uses : List Use) (held left : ℕ) (release : Option (W → W)) (world : W)
      → suc held + length uses < 2 ^ 32
      → held_after (suc held) uses ≡ some left
      → run_uses uses (object_of (suc held) release) world
        ≡ result_of left release (world_at left release world)
  unfolding run_uses held_after
  run_uses-held_after [] held left release world small e =
      let same : suc held ≡ left = cc in
      subst
        (λ m. result_of (suc held) release world ≡ result_of m release (world_at m release world))
        same
        (one_of (λ w. result_of (suc held) release world ≡ result_of (suc held) release w)
          (suc held == 0) (call_release release world) world (λ h. absurd (ground (arith, h)))
          (λ h. refl))
  run_uses-held_after (get ∷ uses) held left release world small e =
      rw (kobject_get_lem (suc held) release (omega (arith, small)), run_uses)
        (run_uses-held_after uses (suc held) left release world (omega (arith, small))
          (ap (λ n. held_after n uses) (omega arith) ∙ e))
  run_uses-held_after (put ∷ []) zero left release world small e =
      let same : 0 ≡ left = cc in
      rw (kobject_put_lem zero release world (omega (arith, small)), run_uses)
        (subst
          (λ m.
            result_of 0 release (call_release release world)
            ≡ result_of m release (world_at m release world))
          same refl)
  run_uses-held_after (put ∷ (u ∷ uses)) zero left release world small e = cc
  run_uses-held_after (put ∷ uses) (suc held) left release world small e =
      rw (kobject_put_lem (suc held) release world (omega (arith, small)), run_uses)
        (one_of
          (λ w.
            run_uses uses (object_of (suc held) release) w
            ≡ result_of left release (world_at left release world))
          (suc held == 0) (call_release release world) world (λ h. absurd (ground (arith, h)))
          (λ h. run_uses-held_after uses held left release world (omega (arith, small)) e))

  -- From a new object, any sequence of fewer than 2^32 - 1 uses that only take and give back
  -- references while one is held runs without a panic; the count is the number of references
  -- held, and the release has run once if that is 0 and not at all otherwise.
  pub kobject_init-held_after :
      (uses : List Use) (left : ℕ) (release : Option (W → W)) (world : W)
      → 1 + length uses < 2 ^ 32
      → held_after 1 uses ≡ some left
      → run_uses uses (kobject_init release) world
        ≡ some (
          record { refcount = left; release = release },
          if left == 0 then call_release release world else world,
        )
  unfolding kobject_init kref_init
  kobject_init-held_after uses left release world small e =
      run_uses-held_after uses zero left release world small e
