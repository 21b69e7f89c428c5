-- ===== src/Vma/Client.antt =====
-- What a caller of kernel/kernel/vma.c relies on across calls: insertion and lookup, the search for
-- a gap and insertion.
use dfos.Base.{
  ℕ, ◌+◌, ◌≤◌, ◌<◌, Bool, true, ◌&&◌, ◌||◌, ◌≡◌, List, [], ◌∷◌, some, arith, leb, ltb, ◌==◌,
  if◌then◌else◌, Returns, Returns-mono, Bool-cases, Option-cases, inl, inr, All, subst,
}
use dfos.Vma.Node.{Region, NodePool}
use dfos.Vma.Tree.{VmaTree, vma_tree_insert, vma_tree_find, vma_tree_find_gap}
use dfos.Vma.Regions.{Apart, insert_region, insert_region_total}
use dfos.Vma.Search.{to_list-Within}
use dfos.Vma.Valid.{IsValid, view, available, max_address}
use dfos.Vma.Spec.{insert_spec}
use dfos.Vma.Correct.{Meets, region, vma_tree_insert-insert_spec}
use dfos.Vma.FirstFit.{Clear}
use dfos.Vma.FindGap.{FirstGap, vma_tree_find_gap-FirstGap}
use dfos.Vma.Lookup.{vma_tree_find-find_region, find_region-insert_region}

-- What lookups see after an insertion with this outcome.
abbrev pub Sees : VmaTree → Region → Bool × VmaTree × NodePool → Type 0
Sees t x (ok, t', pool) =
    (address : ℕ)
    → vma_tree_find t' address ≡ (
        if ok && (leb x.start address && ltb address x.end)
        then some x
        else vma_tree_find t address)

sees :
    (others left : ℕ) (t t' : VmaTree) (x : Region) (ok : Bool) (pool pool' : NodePool)
    → IsValid others t pool
    → Meets others (insert_spec left (view t) x) (ok, t', pool')
    → Sees t x (ok, t', pool')
unfolding insert_spec
sees others left t t' x ok pool pool' v (e, v') = λ address.
    rw
      (
        vma_tree_find-find_region t' address v'.ordered,
        vma_tree_find-find_region t address v.ordered,
      )
      (elim (Bool-cases (leb x.end x.start || left == 0)) [
        | inl bad ↦ ground arith
        | inr good ↦ elim (Option-cases (insert_region x (view t))) [
          | inl clash ↦ ground arith
          | inr (ys, eq) ↦ ground (
            arith,
            find_region-insert_region address 0 max_address x (view t) ys
                (to_list-Within 0 max_address t.root v.ordered) eq,
          )
        ]
      ])

-- After an insertion that succeeds, a lookup finds the new region at its addresses, and at all
-- others what it found before; after one that fails, what it found before.
pub vma_tree_find-insert :
    (others : ℕ) (t : VmaTree) (pool : NodePool) (start end flags : ℕ)
    → IsValid others t pool
    → end ≤ max_address
    → Returns (vma_tree_insert t pool start end flags) (Sees t (region start end flags))
vma_tree_find-insert others t pool start end flags v h =
    Returns-mono (Meets others (insert_spec (available pool) (view t) (region start end flags))) _ _
      (vma_tree_insert-insert_spec others t pool start end flags v h)
      (λ (ok, t', pool') m.
        sees others (available pool) t t' (region start end flags) ok pool pool' v m)

Clear-Apart : (x : Region) (xs : List Region) → Clear x.start x.end xs → All (Apart x) xs
Clear-Apart x [] c = tt
Clear-Apart x (y ∷ ys) (inl h, c) = (inr h, Clear-Apart x ys c)
Clear-Apart x (y ∷ ys) (inr h, c) = (inl h, Clear-Apart x ys c)

succeeds :
    (left : ℕ) (xs : List Region) (x : Region) (ys : List Region)
    → 0 < left
    → x.start < x.end
    → insert_region x xs ≡ some ys
    → (ok : Bool) (zs : List Region) → ◌≡◌ {A = Bool × List Region} (ok, zs) (insert_spec left xs x)
    → ok ≡ true
unfolding insert_spec
succeeds left xs x ys p q e ok zs h = ground arith

-- In a valid state with a node left, inserting the gap that the search returned for 32-bit
-- arguments with `min_addr` above 0 succeeds.
pub vma_tree_insert-find_gap :
    (others : ℕ) (t : VmaTree) (pool : NodePool) (min_addr max_addr size alignment flags r : ℕ)
    → IsValid others t pool
    → 0 < available pool
    → 0 < min_addr
    → min_addr ≤ max_address
    → max_addr ≤ max_address
    → alignment ≤ max_address
    → vma_tree_find_gap t min_addr max_addr size alignment ≡ some r
    → Returns (vma_tree_insert t pool r (r + size) flags) (λ (ok, _, _). ok ≡ true)
vma_tree_insert-find_gap others t pool min_addr max_addr size alignment flags r v left p b c d e =
    let (s, lo, (_, q, clear), _) =
      subst (FirstGap min_addr max_addr size alignment (view t)) e
        (vma_tree_find_gap-FirstGap t min_addr max_addr size alignment v.ordered p b c d) in
    let x = region r (r + size) flags in
    let (ys, eq, w) =
      insert_region_total x 0 max_address (view t) (to_list-Within 0 max_address t.root v.ordered)
        (Clear-Apart x (view t) clear) (omega arith) (omega (arith, s.0)) (omega arith) in
    Returns-mono (Meets others (insert_spec (available pool) (view t) x)) _ _
      (vma_tree_insert-insert_spec others t pool r (r + size) flags v (omega arith))
      (λ (ok, t', pool') m.
        succeeds (available pool) (view t) x ys left (omega (arith, s.0)) eq ok (view t') m.0)
