-- ===== src/Vma/RemoveRegion.antt =====
-- Taking a region out of an ascending list, by what stands before and after it.
use mathlib.Core.Option
use dfos.Base.{
  ℕ, ◌≤◌, ◌<◌, ◌≡◌, ◌≢◌, refl, List, [], ◌∷◌, ◌++◌, none, some, arith, Option-cases, inl, inr,
}
use dfos.Vma.Node.{Region}
use dfos.Vma.Regions.{Within, Within-le, remove_region}

pub remove_none :
    (start end lo hi : ℕ) (xs : List Region)
    → Within lo hi xs
    → start < lo
    → remove_region start end xs ≡ none
unfolding remove_region
remove_none start end lo hi [] w h = refl
remove_none start end lo hi (x ∷ xs) w h = ground (arith, remove_none start end x.end hi xs w.2)

pub remove_before :
    (start end hi : ℕ) (y : Region) (xs ys : List Region)
    → start < y.start
    → Within y.start hi (y ∷ ys)
    → remove_region start end (xs ++ (y ∷ ys))
      ≡ Option.map (λ zs. zs ++ (y ∷ ys)) (remove_region start end xs)
unfolding remove_region
remove_before start end hi y [] ys h w = remove_none start end y.start hi (y ∷ ys) w h
remove_before start end hi y (x ∷ xs) ys h w = elim (Option-cases (remove_region start end xs)) [
  | inl e ↦ ground (arith, remove_before start end hi y xs ys h w)
  | inr (zs, e) ↦ ground (arith, remove_before start end hi y xs ys h w)
]

pub remove_past :
    (start end lo hi : ℕ) (xs ys : List Region)
    → Within lo hi xs
    → hi ≤ start
    → remove_region start end (xs ++ ys) ≡ Option.map (λ zs. xs ++ zs) (remove_region start end ys)
unfolding remove_region
remove_past start end lo hi [] ys w h = elim (Option-cases (remove_region start end ys)) [
  | inl e ↦ ground arith
  | inr (zs, e) ↦ ground arith
]
remove_past start end lo hi (x ∷ xs) ys w h = elim (Option-cases (remove_region start end ys)) [
  | inl e ↦ ground (arith, Within-le x.end hi xs w.2, remove_past start end x.end hi xs ys w.2 h)
  | inr (zs, e) ↦
      ground (arith, Within-le x.end hi xs w.2, remove_past start end x.end hi xs ys w.2 h)
]

pub remove_here : (y : Region) (ys : List Region) → remove_region y.start y.end (y ∷ ys) ≡ some ys
unfolding remove_region
remove_here y ys = ground arith

pub remove_skip :
    (start end : ℕ) (y : Region) (ys : List Region)
    → y.start < start
    → remove_region start end (y ∷ ys) ≡ Option.map (λ zs. y ∷ zs) (remove_region start end ys)
unfolding remove_region
remove_skip start end y ys h = ground arith

pub remove_mismatch :
    (start end hi : ℕ) (y : Region) (ys : List Region)
    → Within y.end hi ys
    → start < y.end
    → y.end ≢ end
    → remove_region start end (y ∷ ys) ≡ none
unfolding remove_region
remove_mismatch start end hi y ys w h ne = ground (arith, remove_none start end y.end hi ys w h)
