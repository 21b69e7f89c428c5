-- ===== src/Registry/Tests.antt =====
-- Three console modules: the best one refuses, the others can be activated (kernel/kernel/module.c).
use dfos.Base.{ℕ, ◌+◌, true, false, Bool, List, [], ◌∷◌, none, some, ◌≡◌, refl, arith, Returns}
use dfos.Registry.{
  console, input, kind_value, Entry, module_is_supported, module_matches_kind, is_open, better,
  try_candidate, find_best_from, module_find_best_candidate, module_activate_best,
  module_activate_all,
}
use dfos.Registry.Candidate.{unattempted}
use dfos.Registry.Activate.{
  BestActivated, AllActivated, module_activate_best-BestActivated, module_activate_all-AllActivated,
}

-- The world counts the callbacks.
abbrev works : ℕ → Bool × ℕ
works w = (true, w + 1)

abbrev fails : ℕ → Bool × ℕ
fails w = (false, w + 1)

abbrev three : List (Entry ℕ)
three =
    record {
      descriptor = record { kind = console; priority = 100; probe = none; activate = some works };
      active = false;
      attempted = false;
    }
    ∷ record {
      descriptor = record {
        kind = console;
        priority = 200;
        probe = some works;
        activate = some fails;
      };
      active = false;
      attempted = false;
    }
    ∷ record {
      descriptor = record { kind = input; priority = 300; probe = none; activate = some works };
      active = false;
      attempted = false;
    }
    ∷ []

finds_second : module_find_best_candidate console three 0 ≡ (some (1, 200), 1)
unfolding module_find_best_candidate find_best_from try_candidate better is_open module_matches_kind
    kind_value module_is_supported
finds_second = refl

module_activate_best-BestActivated_example :
    Returns (module_activate_best console 4 three 0) (BestActivated console three 0)
unfolding unattempted
module_activate_best-BestActivated_example =
    module_activate_best-BestActivated console 4 three 0 (omega arith)

module_activate_all-AllActivated_example :
    Returns (module_activate_all console 4 0 three 0) (AllActivated console three 0 0)
unfolding unattempted
module_activate_all-AllActivated_example =
    module_activate_all-AllActivated console 0 4 three 0 (omega arith)
