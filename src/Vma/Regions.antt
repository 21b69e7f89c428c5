-- ===== src/Vma/Regions.antt =====
-- What the tree of kernel/kernel/vma.c stands for: the list of its regions, in ascending order and
-- disjoint, and what the operations mean for such a list.
use mathlib.Core.Option
use dfos.Base.{
  ℕ, ◌≤◌, ◌<◌, ◌&&◌, ◌≡◌, ◌⊎◌, List, [], ◌∷◌, ◌++◌, Option, none, some, arith, ltb, leb, ◌==◌,
  if◌then◌else◌, All, refl, subst, suc, length, Bool-cases, Option-cases, inl, inr, leb→le, le→leb,
}
use dfos.Vma.Node.{Region}

-- Non-empty regions in ascending order that do not overlap, from `lo` to `hi`.
abbrev pub Within : ℕ → ℕ → List Region → Type 0
Within lo hi [] = lo ≤ hi
Within lo hi (x ∷ xs) = (lo ≤ x.start) × (x.start < x.end) × Within x.end hi xs

-- `x` and `y` have no address in common.
abbrev pub Apart : Region → Region → Type 0
Apart x y = (x.end ≤ y.start) ⊎ (y.end ≤ x.start)

-- `none` if the new region overlaps another.
unfoldable pub insert_region : Region → List Region → Option (List Region)
insert_region x [] = some (x ∷ [])
insert_region x (y ∷ ys) =
    if leb x.end y.start
    then some (x ∷ y ∷ ys)
    else if leb y.end x.start
    then Option.map (λ zs. y ∷ zs) (insert_region x ys)
    else none

-- `none` if no region has these bounds.
unfoldable pub remove_region : ℕ → ℕ → List Region → Option (List Region)
remove_region start end [] = none
remove_region start end (y ∷ ys) =
    if y.start == start && y.end == end
    then some ys
    else Option.map (λ zs. y ∷ zs) (remove_region start end ys)

unfoldable pub find_region : ℕ → List Region → Option Region
find_region address [] = none
find_region address (y ∷ ys) =
    if leb y.start address && ltb address y.end then some y else find_region address ys

pub Within-le : (lo hi : ℕ) (xs : List Region) → Within lo hi xs → lo ≤ hi
Within-le lo hi [] w = w
Within-le lo hi (x ∷ xs) (p, q, w) = omega (arith, Within-le x.end hi xs w)

pub Within-append :
    (lo mid hi : ℕ) (xs ys : List Region)
    → Within lo mid xs
    → Within mid hi ys
    → Within lo hi (xs ++ ys)
Within-append lo mid hi [] [] v w = omega arith
Within-append lo mid hi [] (y ∷ ys) v (p, q, w) = (omega arith, q, w)
Within-append lo mid hi (x ∷ xs) ys (p, q, v) w = (p, q, Within-append x.end mid hi xs ys v w)

pub Within-split :
    (lo hi : ℕ) (xs : List Region) (y : Region) (ys : List Region)
    → Within lo hi (xs ++ (y ∷ ys))
    → Within lo y.start xs × (y.start < y.end) × Within y.end hi ys
Within-split lo hi [] y ys (p, q, w) = (p, q, w)
Within-split lo hi (x ∷ xs) y ys (p, q, w) =
    let (a, b, c) = Within-split x.end hi xs y ys w in ((p, q, a), b, c)

pub Within-Apart :
    (x : Region) (lo hi : ℕ) (xs : List Region) → Within lo hi xs → x.end ≤ lo → All (Apart x) xs
Within-Apart x lo hi [] w h = tt
Within-Apart x lo hi (y ∷ ys) (p, q, w) h =
    (inl (omega arith), Within-Apart x y.end hi ys w (omega arith))

-- What an insertion adds has no address in common with the regions there.
pub insert_region-Apart :
    (x : Region) (lo hi : ℕ) (xs ys : List Region)
    → Within lo hi xs
    → insert_region x xs ≡ some ys
    → All (Apart x) xs
unfolding insert_region
insert_region-Apart x lo hi [] ys w e = tt
insert_region-Apart x lo hi (y ∷ xs) ys (p, q, w) e = elim (Bool-cases (leb x.end y.start)) [
  | inl before ↦ let h = leb→le _ _ before in (inl h, Within-Apart x y.end hi xs w (omega arith))
  | inr not_before ↦ elim (Bool-cases (leb y.end x.start)) [
    | inl after ↦ elim (Option-cases (insert_region x xs)) [
      | inl missing ↦ absurd (ground arith)
      | inr (zs, eq) ↦ (inr (leb→le _ _ after), insert_region-Apart x y.end hi xs zs w eq)
    ]
    | inr not_after ↦ absurd (ground arith)
  ]
]

-- A region that has none in common with the others is inserted, and the order is kept.
pub insert_region_total :
    (x : Region) (lo hi : ℕ) (xs : List Region)
    → Within lo hi xs
    → All (Apart x) xs
    → lo ≤ x.start
    → x.start < x.end
    → x.end ≤ hi
    → (ys : List Region) × (insert_region x xs ≡ some ys) × Within lo hi ys
unfolding insert_region
insert_region_total x lo hi [] w a p q r = (x ∷ [], refl, (p, q, r))
insert_region_total x lo hi (y ∷ ys) (u, v, w) (a, rest) p q r =
    elim (Bool-cases (leb x.end y.start)) [
      | inl e ↦ (x ∷ y ∷ ys, rw e, (p, q, (leb→le _ _ e, v, w)))
      | inr e ↦
          let h : y.end ≤ x.start = ground arith in
          let (zs, eq, wz) = insert_region_total x y.end hi ys w rest h q r in
          (y ∷ zs, rw (e, le→leb y.end x.start h, eq), (u, v, wz))
    ]

pub insert_region-Within :
    (x : Region) (lo hi : ℕ) (xs ys : List Region)
    → Within lo hi xs
    → lo ≤ x.start
    → x.start < x.end
    → x.end ≤ hi
    → insert_region x xs ≡ some ys
    → Within lo hi ys
insert_region-Within x lo hi xs ys w p q r e =
    let (zs, eq, wz) =
      insert_region_total x lo hi xs w (insert_region-Apart x lo hi xs ys w e) p q r in
    subst (Within lo hi) (cc) wz

pub length-insert_region :
    (x : Region) (xs ys : List Region) → insert_region x xs ≡ some ys → length ys ≡ suc (length xs)
unfolding insert_region
length-insert_region x [] ys e = ground arith
length-insert_region x (y ∷ xs) ys e = elim (Option-cases (insert_region x xs)) [
  | inl missing ↦ ground arith
  | inr (zs, eq) ↦ ground (arith, length-insert_region x xs zs eq)
]

pub length-remove_region :
    (start end : ℕ) (xs ys : List Region)
    → remove_region start end xs ≡ some ys
    → length xs ≡ suc (length ys)
unfolding remove_region
length-remove_region start end [] ys e = cc
length-remove_region start end (y ∷ xs) ys e = elim (Option-cases (remove_region start end xs)) [
  | inl missing ↦ ground arith
  | inr (zs, eq) ↦ ground (arith, length-remove_region start end xs zs eq)
]

pub Within-widen :
    (lo lo' hi : ℕ) (xs : List Region) → lo' ≤ lo → Within lo hi xs → Within lo' hi xs
Within-widen lo lo' hi [] h w = omega arith
Within-widen lo lo' hi (x ∷ xs) h (p, q, w) = (omega arith, q, w)

pub remove_region-Within :
    (lo hi start end : ℕ) (xs ys : List Region)
    → Within lo hi xs
    → remove_region start end xs ≡ some ys
    → Within lo hi ys
unfolding remove_region
remove_region-Within lo hi start end [] ys w e = cc
remove_region-Within lo hi start end (y ∷ xs) ys (p, q, w) e =
    elim (Bool-cases (y.start == start && y.end == end)) [
      | inl found ↦
          let same : xs ≡ ys = ground arith in
          subst (Within lo hi) same (Within-widen y.end lo hi xs (omega arith) w)
      | inr other ↦ elim (Option-cases (remove_region start end xs)) [
        | inl missing ↦ absurd (ground arith)
        | inr (zs, eq) ↦
            let same : y ∷ zs ≡ ys = ground arith in
            subst (Within lo hi) same (p, q, remove_region-Within y.end hi start end xs zs w eq)
      ]
    ]
