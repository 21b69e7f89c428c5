-- ===== src/Vma/FirstFit/Moves.antt =====
-- The step of the gap search of kernel/kernel/vma.c behind a region.
use dfos.Base.{ℕ, ◌%◌, ◌≤◌, ◌<◌, ◌≡◌, ◌⊎◌, inl, inr, arith, ltb, if◌then◌else◌}
use dfos.Vma.Node.{Region}
use dfos.Vma.Gap.{GapSearch, align_up_u32}
use dfos.Vma.Valid.{max_address}
use dfos.Vma.Align.{align_up_u32-cases}
use dfos.Vma.FirstFit.{Searching}

-- Where the cursor goes when the gap before `x` is too small.
abbrev pub moved : Region → GapSearch → ℕ
moved x s =
    let next = align_up_u32 x.end s.alignment in
    let next_cursor = if ltb next s.cursor then s.max_addr else next in
    if ltb s.max_addr next_cursor then s.max_addr else next_cursor

-- It passes the region, and no address that may fit.
pub record Moves (x : Region) (s : GapSearch) : Type 0 where
  pub forth : s.cursor ≤ moved x s
  pub limit : moved x s ≤ s.max_addr
  pub passes : (x.end ≤ moved x s) ⊎ (moved x s ≡ s.max_addr)
  pub kept : (moved x s % s.alignment ≡ 0) ⊎ (moved x s ≡ s.max_addr)
  pub least : (a : ℕ) → a % s.alignment ≡ 0 → x.end ≤ a → a ≤ s.max_addr → moved x s ≤ a

pub moves :
    (x : Region) (s : GapSearch) → Searching s → x.end ≤ max_address → s.cursor < x.end → Moves x s
moves x s v h past = elim (align_up_u32-cases x.end s.alignment h v.small v.nonzero v.power) [
  | inl (multiple, from, first) ↦ record {
    forth = ground arith;
    limit = ground arith;
    passes = ground arith;
    kept = ground arith;
    least = λ a d p q. ground (arith, first a d p);
  }
  | inr (none_left, over) ↦ record {
    forth = ground arith;
    limit = ground arith;
    passes = ground arith;
    kept = ground arith;
    least = λ a d p q. absurd (omega (arith, over a d p, v.bounded));
  }
]
