-- ===== src/Vma/FindGap.antt =====
-- `vma_tree_find_gap` of kernel/kernel/vma.c finds the first gap.
use dfos.Base.{
  ℕ, ◌-◌, ◌≤◌, ◌<◌, true, false, ◌≡◌, ◌⊎◌, inl, inr, refl, sym, List, Option, none, some, arith,
  bit_and, leb, ltb, ◌==◌, ◌||◌, Bool-cases, ==_iff, subst,
}
use dfos.Vma.Node.{Region}
use dfos.Vma.Gap.{GapSearch, gap_search_in_order, align_up_u32}
use dfos.Vma.Tree.{VmaTree, finish_gap, vma_tree_find_gap}
use dfos.Vma.Search.{Search, to_list-Within}
use dfos.Vma.Valid.{view, max_address}
use dfos.Vma.Align.{LeastMultiple, NoMultiple, align_up_u32-cases}
use dfos.Vma.Walk.{gap_search_in_order-search_list}
use dfos.Vma.FirstFit.{FitsAt, FirstFit}
use dfos.Vma.FirstFit.Scan.{search_list-FirstFit}

-- A request that makes sense: some bytes, at a multiple of a power of two.
abbrev pub Sensible : ℕ → ℕ → Type 0
Sensible size alignment = (0 < size) × (0 < alignment) × (bit_and alignment (alignment - 1) ≡ 0)

-- The first address from `min_addr` on that fits, or that there is none.
abbrev pub FirstGap : ℕ → ℕ → ℕ → ℕ → List Region → Option ℕ → Type 0
FirstGap min_addr max_addr size alignment xs none =
    Sensible size alignment → (a : ℕ) → min_addr ≤ a → ¬ FitsAt max_addr size alignment xs a
FirstGap min_addr max_addr size alignment xs (some r) =
    Sensible size alignment
    × (min_addr ≤ r)
    × FitsAt max_addr size alignment xs r
    × ((a : ℕ) → min_addr ≤ a → FitsAt max_addr size alignment xs a → r ≤ a)

abbrev pub gap_search : ℕ → ℕ → ℕ → ℕ → GapSearch
gap_search cursor max_addr size alignment = record {
  cursor = cursor;
  max_addr = max_addr;
  size = size;
  alignment = alignment;
  result = 0;
  found = false;
}

-- From the first aligned address on.
FirstFit-FirstGap :
    (min_addr start max_addr size alignment : ℕ) (xs : List Region) (o : Option ℕ)
    → Sensible size alignment
    → LeastMultiple alignment min_addr start
    → FirstFit (gap_search start max_addr size alignment) xs o
    → FirstGap min_addr max_addr size alignment xs o
FirstFit-FirstGap min_addr start max_addr size alignment xs none s m f =
    λ _ a h (d, q, c). f a (m.2 a d h) (d, q, c)
FirstFit-FirstGap min_addr start max_addr size alignment xs (some r) s m (p, f, least) =
    (s, omega (arith, m.1), f, λ a h (d, q, c). least a (m.2 a d h) (d, q, c))

-- A request that is refused at once has no answer.
refused :
    (min_addr max_addr size alignment : ℕ) (xs : List Region)
    → (size == 0 || leb max_addr min_addr || alignment == 0) ≡ true
    → FirstGap min_addr max_addr size alignment xs none
refused min_addr max_addr size alignment xs bad = λ (sized, nonzero, _) a h (_, q, _).
    let e : max_addr ≤ min_addr = ground arith in absurd (omega arith)

-- Nor is there one if the first aligned address is too far.
out_of_range :
    (min_addr max_addr size alignment start : ℕ) (xs : List Region)
    → max_addr ≤ max_address
    → (ltb start min_addr || leb max_addr start) ≡ true
    → LeastMultiple alignment min_addr start ⊎ ((start ≡ 0) × NoMultiple alignment min_addr)
    → FirstGap min_addr max_addr size alignment xs none
out_of_range min_addr max_addr size alignment start xs c far (inl m) =
    λ (sized, _, _) a h (d, q, _).
      let e : max_addr ≤ start = ground (arith, m.1) in absurd (omega (arith, m.2 a d h))
out_of_range min_addr max_addr size alignment start xs c far (inr (_, over)) =
    λ _ a h (d, q, _). absurd (omega (arith, over a d h))

-- The search itself.
searched :
    (t : VmaTree) (min_addr max_addr size alignment start : ℕ)
    → Search 0 max_address t.root
    → 0 < min_addr
    → max_addr ≤ max_address
    → alignment ≤ max_address
    → Sensible size alignment
    → min_addr ≤ start
    → start < max_addr
    → LeastMultiple alignment min_addr start ⊎ ((start ≡ 0) × NoMultiple alignment min_addr)
    → FirstGap min_addr max_addr size alignment
        (view t)
        (finish_gap (gap_search_in_order t.root (gap_search start max_addr size alignment)))
searched t min_addr max_addr size alignment start s p c d v lo hi (inr (e, _)) =
    absurd (omega arith)
searched t min_addr max_addr size alignment start s p c d v lo hi (inl m) =
    let g = gap_search start max_addr size alignment in
    FirstFit-FirstGap min_addr start max_addr size alignment (view t) _ v m (
      subst (λ u. FirstFit g (view t) (finish_gap u))
        (sym (gap_search_in_order-search_list t.root g))
        (search_list-FirstFit 0 max_address (view t) g (to_list-Within 0 max_address t.root s)
          (omega arith)
          (record {
            going = refl;
            sized = v.0;
            positive = omega arith;
            below = omega arith;
            bounded = c;
            aligned = inl m.0;
            small = d;
            nonzero = v.1;
            power = v.2;
          })))

-- For 32-bit arguments with `min_addr` above 0, in a valid state, the search returns the first
-- aligned address from `min_addr` on at which the bytes fit clear of
-- every region, and fails only if there is none.
pub vma_tree_find_gap-FirstGap :
    (t : VmaTree) (min_addr max_addr size alignment : ℕ)
    → Search 0 max_address t.root
    → 0 < min_addr
    → min_addr ≤ max_address
    → max_addr ≤ max_address
    → alignment ≤ max_address
    → FirstGap min_addr max_addr size alignment
        (view t)
        (vma_tree_find_gap t min_addr max_addr size alignment)
unfolding vma_tree_find_gap
vma_tree_find_gap-FirstGap t min_addr max_addr size alignment s p b c d =
    elim (Bool-cases (size == 0 || leb max_addr min_addr || alignment == 0)) [
      | inl bad ↦ rw (bad, FirstGap) (refused min_addr max_addr size alignment (view t) bad)
      | inr good ↦ elim (Bool-cases (bit_and alignment (alignment - 1) == 0)) [
        | inr other ↦ rw (good, other, FirstGap) (λ v. absurd (ground (arith, v.2)))
        | inl power ↦
            let v : Sensible size alignment = (ground arith, ground arith, (==_iff _ _).0 power) in
            let start = align_up_u32 min_addr alignment in
            let cases = align_up_u32-cases min_addr alignment b d v.1 v.2 in
            elim (Bool-cases (ltb start min_addr || leb max_addr start)) [
              | inl far ↦
                  rw (good, power, far, FirstGap)
                    (out_of_range min_addr max_addr size alignment start (view t) c far cases)
              | inr near ↦
                  rw (good, power, near, FirstGap)
                    (searched t min_addr max_addr size alignment start s p c d v (ground arith)
                      (ground arith) cases)
            ]
      ]
    ]
