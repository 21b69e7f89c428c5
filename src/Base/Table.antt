-- ===== src/Base/Table.antt =====
-- Facts about small numbers, by evaluation of every case.
use Prim.Native.Nat.{ℕ, zero, suc, ◌<◌}
use mathlib.Core.Path.{◌≡◌}
use mathlib.Core.Bool.{Bool, true, ◌&&◌}
use native.Mathlib.Omega.{arith}

-- Whether a test passes at every number below the bound.
unfoldable pub holds_below : ℕ → (ℕ → Bool) → Bool
holds_below zero test = true
holds_below (suc n) test = test n && holds_below n test

pub test_of_holds_below :
    (bound : ℕ) (test : ℕ → Bool)
    → (n : ℕ) → holds_below bound test ≡ true
    → n < bound
    → test n ≡ true
unfolding holds_below
test_of_holds_below zero test n h b = absurd (omega arith)
test_of_holds_below (suc bound) test n h b = ground (arith, test_of_holds_below bound test n)
