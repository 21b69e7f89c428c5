-- ===== src/Vma/ZeroGap.antt =====
-- The search of kernel/kernel/vma.c from address 0. A region whose end rounds up past 32 bits sets
-- the next cursor to 0, which the code tells from a real address only by `next_cursor < cursor`.
use dfos.Base.{
  ℕ, ◌-◌, ◌≤◌, ◌<◌, true, false, ◌||◌, ◌≡◌, refl, [], ◌∷◌, some, arith, leb, ◌==◌, bit_and, inl,
  inr,
}
use dfos.Vma.Node.{Region}
use dfos.Vma.Gap.{align_up_u32, visit, add_fits_limit, gap_search_in_order}
use dfos.Vma.Tree.{VmaTree, vma_tree_find, vma_tree_find_gap, finish_gap}
use dfos.Vma.Regions.{find_region}
use dfos.Vma.Search.{Search}
use dfos.Vma.Valid.{view, max_address}
use dfos.Vma.Align.{align_up_u32-cases}
use dfos.Vma.Walk.{search_list, gap_search_in_order-search_list}
use dfos.Vma.FindGap.{Sensible, gap_search}
use dfos.Vma.Lookup.{vma_tree_find-find_region}

align_up_u32-zero : (a size : ℕ) → a ≤ max_address → Sensible size a → align_up_u32 0 a ≡ 0
align_up_u32-zero a size h v = elim (align_up_u32-cases 0 a (omega arith) h v.1 v.2) [
  | inl m ↦ omega (arith, m.2 0 (omega arith) (omega arith))
  | inr m ↦ m.0
]

search_one :
    (x : Region) (max_addr size alignment : ℕ)
    → x.start ≡ 0
    → 0 < x.end
    → align_up_u32 x.end alignment ≡ 0
    → 0 < size
    → size ≤ max_addr
    → finish_gap (search_list (x ∷ []) (gap_search 0 max_addr size alignment)) ≡ some 0
unfolding search_list visit finish_gap add_fits_limit
search_one x max_addr size alignment p q e v h = ground arith

-- If one region holds address 0 and its end rounds up past 32 bits, then a search from address 0
-- returns 0, an address inside the region.
pub vma_tree_find_gap_zero :
    (t : VmaTree) (x : Region) (max_addr size alignment : ℕ)
    → Search 0 max_address t.root
    → view t ≡ x ∷ []
    → x.start ≡ 0
    → 0 < x.end
    → alignment ≤ max_address
    → align_up_u32 x.end alignment ≡ 0
    → Sensible size alignment
    → size ≤ max_addr
    → (vma_tree_find_gap t 0 max_addr size alignment ≡ some 0) × (vma_tree_find t 0 ≡ some x)
unfolding vma_tree_find_gap find_region
vma_tree_find_gap_zero t x max_addr size alignment s only p q a e v h =
    let g = gap_search 0 max_addr size alignment in
    let start = align_up_u32-zero alignment size a v in
    let walk : finish_gap (gap_search_in_order t.root g) ≡ some 0 =
      rw (gap_search_in_order-search_list t.root g, only)
        (search_one x max_addr size alignment p q e v.0 h) in
    let power : bit_and alignment (alignment - 1) ≡ 0 = v.2 in
    let asked : (size == 0 || leb max_addr 0 || alignment == 0) ≡ false =
      ground (arith, v.0, v.1) in
    let aligned : (bit_and alignment (alignment - 1) == 0) ≡ true = rw power refl in
    let below : leb max_addr 0 ≡ false = ground (arith, v.0) in
    (
      rw (asked, aligned, start, below) walk,
      rw (vma_tree_find-find_region t 0 s, only) (ground arith),
    )
