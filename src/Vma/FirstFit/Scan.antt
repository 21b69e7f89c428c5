-- ===== src/Vma/FirstFit/Scan.antt =====
-- The gap search of kernel/kernel/vma.c finds the first address that fits.
use dfos.Base.{
  ℕ, ◌+◌, ◌%◌, ◌≤◌, ◌<◌, true, false, ◌≡◌, ◌⊎◌, inl, inr, refl, sym, ap, ◌∙◌, List, [], ◌∷◌, Option,
  none, some, arith, leb, ltb, Bool-cases, leb→le, leb_false→lt, ltb→lt, ltb_false→le, subst,
}
use dfos.Vma.Node.{Region}
use dfos.Vma.Gap.{GapSearch, visit, add_fits_limit}
use dfos.Vma.Tree.{finish_gap}
use dfos.Vma.Walk.{search_list, search_list_found}
use dfos.Vma.Regions.{Within, Within-le}
use dfos.Vma.Valid.{max_address}
use dfos.Vma.FirstFit.{Fits, FirstFit, Searching, Within-Clear, FirstFit-nil}
use dfos.Vma.FirstFit.Moves.{moved, Moves, moves}

-- A region that ends before the cursor is passed over.
FirstFit-skip :
    (x : Region) (xs : List Region) (s : GapSearch) (o : Option ℕ)
    → x.end ≤ s.cursor
    → FirstFit s xs o
    → FirstFit s (x ∷ xs) o
FirstFit-skip x xs s none h f = λ a p (d, q, c). f a p (d, q, c.1)
FirstFit-skip x xs s (some r) h (p, (d, q, c), m) =
    (p, (d, q, (inl (omega arith), c)), λ a u (d', q', c'). m a u (d', q', c'.1))

-- The gap before a region is large enough.
FirstFit-here :
    (x : Region) (xs : List Region) (s : GapSearch) (hi : ℕ)
    → s.cursor % s.alignment ≡ 0
    → s.cursor + s.size ≤ x.start
    → s.cursor + s.size ≤ s.max_addr
    → x.start < x.end
    → Within x.end hi xs
    → FirstFit s (x ∷ xs) (some s.cursor)
FirstFit-here x xs s hi d p q u w = (
  omega arith,
  (d, q, (inr p, Within-Clear x.end hi s.cursor (s.cursor + s.size) xs w (omega arith))),
  λ a h f. h,
)

-- The gap before the region is too small.
abbrev TooSmall : Region → GapSearch → Type 0
TooSmall x s = (x.start < s.cursor + s.size) ⊎ (s.max_addr < s.cursor + s.size)

Fits-moved :
    (x : Region) (xs : List Region) (s : GapSearch) (a : ℕ)
    → Moves x s
    → TooSmall x s
    → s.cursor ≤ a
    → Fits s (x ∷ xs) a
    → moved x s ≤ a
Fits-moved x xs s a m t h (d, q, (inl behind, c)) = m.least a d behind (omega arith)
Fits-moved x xs s a m (inl t) h (d, q, (inr before, c)) = absurd (omega arith)
Fits-moved x xs s a m (inr t) h (d, q, (inr before, c)) = absurd (omega arith)

-- The search goes on behind the region.
FirstFit-on :
    (x : Region) (xs : List Region) (s : GapSearch) (o : Option ℕ)
    → Searching s
    → Moves x s
    → TooSmall x s
    → FirstFit (record s { cursor = moved x s }) xs o
    → FirstFit s (x ∷ xs) o
FirstFit-on x xs s none v m t f =
    λ a h (d, q, c). f a (Fits-moved x xs s a m t h (d, q, c)) (d, q, c.1)
FirstFit-on x xs s (some r) v m t (p, (d, q, c), least) =
    let behind : x.end ≤ r = elim m.passes [
      | inl e ↦ omega arith
      | inr e ↦ absurd (omega (arith, v.sized))
    ] in
    (
      omega (arith, m.forth),
      (d, q, (inl behind, c)),
      λ a h (d', q', c'). least a (Fits-moved x xs s a m t h (d', q', c')) (d', q', c'.1),
    )

moved-Searching :
    (x : Region) (s : GapSearch)
    → Searching s
    → Moves x s
    → Searching (record s { cursor = moved x s })
moved-Searching x s v m = record {
  going = v.going;
  sized = v.sized;
  positive = omega (arith, v.positive, m.forth);
  below = m.limit;
  bounded = v.bounded;
  aligned = m.kept;
  small = v.small;
  nonzero = v.nonzero;
  power = v.power;
}

-- The three outcomes at a region.
visit_skip : (x : Region) (s : GapSearch) → x.end ≤ s.cursor → visit x s ≡ s
unfolding visit
visit_skip x s h = ground arith

visit_here :
    (x : Region) (s : GapSearch)
    → s.cursor < x.end
    → s.cursor + s.size ≤ x.start
    → s.cursor + s.size ≤ s.max_addr
    → visit x s ≡ record s { result = s.cursor; found = true }
unfolding visit add_fits_limit
visit_here x s h p q = ground arith

visit_on :
    (x : Region) (s : GapSearch)
    → s.cursor < x.end
    → TooSmall x s
    → visit x s ≡ record s { cursor = moved x s }
unfolding visit add_fits_limit
visit_on x s h (inl t) = ground arith
visit_on x s h (inr t) = ground arith

search_step :
    (x : Region) (xs : List Region) (s t : GapSearch)
    → s.found ≡ false
    → visit x s ≡ t
    → search_list (x ∷ xs) s ≡ search_list xs t
unfolding search_list
search_step x xs s t e f = ground arith

found_step :
    (xs : List Region) (s : GapSearch)
    → finish_gap (search_list xs (record s { result = s.cursor; found = true })) ≡ some s.cursor
unfolding finish_gap
found_step xs s = rw (search_list_found xs (record s { result = s.cursor; found = true }) refl)

data Room (x : Region) (s : GapSearch) : Type 0 where
  skip : x.end ≤ s.cursor → Room x s
  here : s.cursor < x.end → s.cursor + s.size ≤ x.start → s.cursor + s.size ≤ s.max_addr → Room x s
  on : s.cursor < x.end → TooSmall x s → Room x s

room : (x : Region) (s : GapSearch) → Room x s
room x s = elim (Bool-cases (ltb s.cursor x.end)) [
  | inr e ↦ skip (ltb_false→le _ _ e)
  | inl e ↦ elim (Bool-cases (leb (s.cursor + s.size) x.start)) [
    | inr f ↦ on (ltb→lt _ _ e) (inl (leb_false→lt _ _ f))
    | inl f ↦ elim (Bool-cases (leb (s.cursor + s.size) s.max_addr)) [
      | inr g ↦ on (ltb→lt _ _ e) (inr (leb_false→lt _ _ g))
      | inl g ↦ here (ltb→lt _ _ e) (leb→le _ _ f) (leb→le _ _ g)
    ]
  ]
]

-- The walk finds the first address that fits.
pub search_list-FirstFit :
    (lo hi : ℕ) (xs : List Region) (s : GapSearch)
    → Within lo hi xs
    → hi ≤ max_address
    → Searching s
    → FirstFit s xs (finish_gap (search_list xs s))
search_list-FirstFit lo hi [] s w h v = unfold search_list in (FirstFit-nil s v)
search_list-FirstFit lo hi (x ∷ xs) s (p, q, w) h v = elim (room x s) [
  | skip e ↦
      subst (λ t. FirstFit s (x ∷ xs) (finish_gap t))
        (sym (search_step x xs s s v.going (visit_skip x s e)))
        (FirstFit-skip x xs s _ e (search_list-FirstFit x.end hi xs s w h v))
  | here e f g ↦
      let aligned : s.cursor % s.alignment ≡ 0 = ground (arith, v.sized, v.aligned) in
      subst (FirstFit s (x ∷ xs))
        (sym
          (ap finish_gap (search_step x xs s _ v.going (visit_here x s e f g)) ∙ found_step xs s))
        (FirstFit-here x xs s hi aligned f g q w)
  | on e t ↦
      let m = moves x s v (omega (arith, Within-le x.end hi xs w)) e in
      subst (λ u. FirstFit s (x ∷ xs) (finish_gap u))
        (sym (search_step x xs s _ v.going (visit_on x s e t)))
        (FirstFit-on x xs s _ v m t
          (search_list-FirstFit x.end hi xs _ w h (moved-Searching x s v m)))
]
