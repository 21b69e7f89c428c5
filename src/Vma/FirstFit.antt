-- ===== src/Vma/FirstFit.antt =====
-- What the gap search of kernel/kernel/vma.c finds: the first address that fits.
pub mod Moves
pub mod Scan
use dfos.Base.{
  ℕ, zero, suc, ◌+◌, ◌-◌, ◌%◌, ◌≤◌, ◌<◌, Bool, true, false, ◌≡◌, ◌⊎◌, inl, inr, refl, sym, ap, ◌∙◌,
  List, [], ◌∷◌, ◌++◌, Option, none, some, arith, bit_and, leb, ltb, Bool-cases, leb→le,
  leb_false→lt, le→leb, ltb→lt, lt→ltb, ltb_false→le, if◌then◌else◌, All, subst,
}
use dfos.Base.Int.{ℤ}
use dfos.Vma.Node.{Region, Tree, null, node}
use dfos.Vma.Gap.{GapSearch, visit, gap_search_in_order, align_up_u32, add_fits_limit}
use dfos.Vma.Tree.{finish_gap}
use dfos.Vma.Walk.{search_list, search_list_found}
use dfos.Vma.InOrder.{to_list}
use dfos.Vma.Regions.{Within, Within-le}
use dfos.Vma.Valid.{max_address}
use dfos.Vma.Align.{LeastMultiple, NoMultiple, align_up_u32-cases}

-- An address at which `size` bytes fit: aligned, below the limit, clear of every region.
abbrev pub Clear : ℕ → ℕ → List Region → Type 0
Clear lo hi xs = All (λ x. (x.end ≤ lo) ⊎ (hi ≤ x.start)) xs

abbrev pub FitsAt : ℕ → ℕ → ℕ → List Region → ℕ → Type 0
FitsAt max_addr size alignment xs a =
    (a % alignment ≡ 0) × (a + size ≤ max_addr) × Clear a (a + size) xs

abbrev pub Fits : GapSearch → List Region → ℕ → Type 0
Fits s = FitsAt s.max_addr s.size s.alignment

-- The result is the first address from the cursor on that fits; `none` says that there is none.
abbrev pub FirstFit : GapSearch → List Region → Option ℕ → Type 0
FirstFit s xs none = (a : ℕ) → s.cursor ≤ a → ¬ Fits s xs a
FirstFit s xs (some r) =
    (s.cursor ≤ r) × Fits s xs r × ((a : ℕ) → s.cursor ≤ a → Fits s xs a → r ≤ a)

-- A search that goes on: the cursor is aligned, or at the limit.
pub record Searching (s : GapSearch) : Type 0 where
  pub going : s.found ≡ false
  pub sized : 0 < s.size
  pub positive : 0 < s.cursor
  pub below : s.cursor ≤ s.max_addr
  pub bounded : s.max_addr ≤ max_address
  pub aligned : (s.cursor % s.alignment ≡ 0) ⊎ (s.cursor ≡ s.max_addr)
  pub small : s.alignment ≤ max_address
  pub nonzero : 0 < s.alignment
  pub power : bit_and s.alignment (s.alignment - 1) ≡ 0

pub Within-Clear : (lo hi a b : ℕ) (xs : List Region) → Within lo hi xs → b ≤ lo → Clear a b xs
Within-Clear lo hi a b [] w h = tt
Within-Clear lo hi a b (x ∷ xs) (p, q, w) h =
    (inr (omega arith), Within-Clear x.end hi a b xs w (omega arith))

pub FirstFit-nil : (s : GapSearch) → Searching s → FirstFit s [] (finish_gap s)
unfolding finish_gap add_fits_limit
FirstFit-nil s v = elim (Bool-cases (leb (s.cursor + s.size) s.max_addr)) [
  | inl fits ↦
      let e : finish_gap s ≡ some s.cursor = ground arith in
      let room : s.cursor + s.size ≤ s.max_addr = leb→le _ _ fits in
      let aligned : s.cursor % s.alignment ≡ 0 = ground arith in
      subst (FirstFit s []) (sym e) (omega arith, (aligned, room, tt), λ a h f. h)
  | inr full ↦
      let e : finish_gap s ≡ none = ground arith in
      subst (FirstFit s []) (sym e) (λ a h f. absurd (omega (arith, f.1, leb_false→lt _ _ full)))
]
