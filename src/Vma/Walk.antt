-- ===== src/Vma/Walk.antt =====
-- The gap search of kernel/kernel/vma.c as a walk over the list of regions.
use dfos.Base.{true, false, ◌≡◌, refl, sym, ◌∙◌, List, [], ◌∷◌, ◌++◌, arith}
use dfos.Base.Int.{ℤ}
use dfos.Vma.Node.{Region, Tree, null, node}
use dfos.Vma.Gap.{GapSearch, visit, gap_search_in_order}
use dfos.Vma.InOrder.{to_list}

-- The search over a list.
unfoldable pub search_list : List Region → GapSearch → GapSearch
search_list [] s = s
search_list (x ∷ xs) s = elim s.found [ true ↦ s | false ↦ search_list xs (visit x s) ]

pub search_list_found : (xs : List Region) (s : GapSearch) → s.found ≡ true → search_list xs s ≡ s
unfolding search_list
search_list_found [] s e = refl
search_list_found (x ∷ xs) s e = ground arith

search_list-append :
    (xs ys : List Region) (s : GapSearch)
    → search_list (xs ++ ys) s ≡ search_list ys (search_list xs s)
unfolding search_list
search_list-append [] ys s = refl
search_list-append (x ∷ xs) ys s =
    ground (arith, search_list_found ys s, search_list-append xs ys (visit x s))

search_node :
    (x : Region) (h : ℤ) (l r : Tree) (s : GapSearch)
    → gap_search_in_order l s ≡ search_list (to_list l) s
    → gap_search_in_order r (visit x (gap_search_in_order l s))
      ≡ search_list (to_list r) (visit x (gap_search_in_order l s))
    → gap_search_in_order (node x h l r) s ≡ search_list (x ∷ to_list r) (search_list (to_list l) s)
unfolding gap_search_in_order search_list
search_node x h l r s p q = ground (
  arith,
  search_list_found (to_list l) s,
  search_list_found (to_list r) (visit x (gap_search_in_order l s)),
)

pub gap_search_in_order-search_list :
    (t : Tree) (s : GapSearch) → gap_search_in_order t s ≡ search_list (to_list t) s
unfolding gap_search_in_order search_list
gap_search_in_order-search_list null s = refl
gap_search_in_order-search_list (node x h l r) s =
    search_node x h l r s (gap_search_in_order-search_list l s)
      (gap_search_in_order-search_list r (visit x (gap_search_in_order l s)))
    ∙ sym (search_list-append (to_list l) (x ∷ to_list r) s)
