-- ===== src/Vma/Spec.antt =====
-- What the operations of kernel/kernel/vma.c promise, over the list of regions and the number of
-- nodes that the pool can still hand out.
use dfos.Base.{ℕ, Bool, true, false, List, Option, none, some, leb, ◌==◌, if◌then◌else◌, ◌||◌}
use dfos.Vma.Node.{Region}
use dfos.Vma.Regions.{insert_region, remove_region}

-- The list after an attempt, with whether it succeeded.
abbrev pub or_unchanged : List Region → Option (List Region) → Bool × List Region
or_unchanged xs none = (false, xs)
or_unchanged xs (some ys) = (true, ys)

unfoldable pub insert_spec : ℕ → List Region → Region → Bool × List Region
insert_spec left xs x =
    if leb x.end x.start || left == 0 then (false, xs) else or_unchanged xs (insert_region x xs)

unfoldable pub remove_spec : List Region → ℕ → ℕ → Bool × List Region
remove_spec xs start end = or_unchanged xs (remove_region start end xs)
