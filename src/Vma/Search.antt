-- ===== src/Vma/Search.antt =====
-- The search order of the trees of kernel/kernel/vma.c.
use dfos.Base.{ℕ, ◌≤◌, ◌<◌, ◌≡◌, ◌∷◌, arith}
use dfos.Vma.Node.{Tree, null, node}
use dfos.Vma.InOrder.{to_list}
use dfos.Vma.Regions.{Within, Within-append, Within-split}

-- The regions left of a node end before it, those right of it start after it.
abbrev pub Search : ℕ → ℕ → Tree → Type 0
Search lo hi null = lo ≤ hi
Search lo hi (node x h l r) = Search lo x.start l × (x.start < x.end) × Search x.end hi r

pub to_list-Within : (lo hi : ℕ) (t : Tree) → Search lo hi t → Within lo hi (to_list t)
to_list-Within lo hi null s = s
to_list-Within lo hi (node x h l r) (sl, p, sr) =
    Within-append lo x.start hi (to_list l) (x ∷ to_list r) (to_list-Within lo x.start l sl)
      (omega arith, p, to_list-Within x.end hi r sr)

pub Within-Search : (lo hi : ℕ) (t : Tree) → Within lo hi (to_list t) → Search lo hi t
Within-Search lo hi null w = w
Within-Search lo hi (node x h l r) w =
    let (a, b, c) = Within-split lo hi (to_list l) x (to_list r) w in
    (Within-Search lo x.start l a, b, Within-Search x.end hi r c)

-- A tree with the same regions has the same order.
pub Search-same :
    (lo hi : ℕ) (t t' : Tree) → to_list t' ≡ to_list t → Search lo hi t → Search lo hi t'
Search-same lo hi t t' e s = Within-Search lo hi t' (rw e (to_list-Within lo hi t s))
