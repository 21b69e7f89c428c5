-- ===== src/Sync/Tests.antt =====
-- Concrete uses of the objects of kernel/kernel/sync.c.
use dfos.Base.{ℕ, suc, [], ◌∷◌, some, ◌≡◌, refl, arith}
use dfos.Sync.Object.{kobject_init}
use dfos.Sync.Counted.{get, put, held_after, run_uses, kobject_init-held_after}

-- A second reference is taken, and both are given back.
kobject_init-held_after_example :
    run_uses (get ∷ put ∷ put ∷ []) (kobject_init (some (λ (n : ℕ). suc n))) 5
    ≡ some (record { refcount = 0; release = some (λ (n : ℕ). suc n) }, 6)
unfolding held_after
kobject_init-held_after_example =
    kobject_init-held_after (get ∷ put ∷ put ∷ []) 0 (some (λ (n : ℕ). suc n)) 5 (omega arith) refl
