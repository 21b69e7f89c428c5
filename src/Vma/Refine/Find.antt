-- ===== src/Vma/Refine/Find.antt =====
-- The lookup of kernel/kernel/vma.c finds what a walk over all regions would.
use dfos.Base.{ℕ, ◌≤◌, ◌<◌, ◌≡◌, refl, List, [], ◌∷◌, ◌++◌, arith}
use dfos.Vma.Node.{Region, Tree, null, node}
use dfos.Vma.Tree.{find_from}
use dfos.Vma.InOrder.{to_list}
use dfos.Vma.Regions.{Within, find_region, Within-le}
use dfos.Vma.Search.{Search, to_list-Within}

-- Regions that end at or before the address are passed over.
find_region_past :
    (address lo hi : ℕ) (xs ys : List Region)
    → Within lo hi xs
    → hi ≤ address
    → find_region address (xs ++ ys) ≡ find_region address ys
unfolding find_region
find_region_past address lo hi [] ys w h = refl
find_region_past address lo hi (x ∷ xs) ys w h =
    ground (arith, Within-le x.end hi xs w.2, find_region_past address x.end hi xs ys w.2 h)

find_region_before :
    (address lo hi : ℕ) (xs ys : List Region)
    → Within lo hi ys
    → address < lo
    → find_region address (xs ++ ys) ≡ find_region address xs
unfolding find_region
find_region_before address lo hi [] [] w h = refl
find_region_before address lo hi [] (y ∷ ys) w h =
    ground (arith, find_region_before address y.end hi [] ys w.2)
find_region_before address lo hi (x ∷ xs) ys w h =
    ground (arith, find_region_before address lo hi xs ys w h)

pub find_from-find_region :
    (lo hi : ℕ) (t : Tree) (address : ℕ)
    → Search lo hi t
    → find_from t address ≡ find_region address (to_list t)
unfolding find_from find_region
find_from-find_region lo hi null address s = refl
find_from-find_region lo hi (node x h l r) address (sl, p, sr) = ground (
  arith,
  find_from-find_region lo x.start l address sl,
  find_from-find_region x.end hi r address sr,
  find_region_past address lo x.start (to_list l) (x ∷ to_list r) (to_list-Within lo x.start l sl),
  find_region_before address x.end hi [] (to_list r) (to_list-Within x.end hi r sr),
  find_region_before address x.start hi (to_list l) (x ∷ to_list r)
      (omega arith, p, to_list-Within x.end hi r sr),
)
