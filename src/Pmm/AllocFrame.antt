-- ===== src/Pmm/AllocFrame.antt =====
-- The allocation of one frame, over the nodes in turn (kernel/kernel/pmm.c).
use native.Mathlib.Nat.{mod-lt, mod-eq_of_lt, add-mod_right}
use dfos.Base.{
  ℕ, ◌+◌, ◌-◌, ◌*◌, ◌/◌, ◌%◌, ◌<◌, ◌^◌, true, false, not, ◌&&◌, ◌||◌, ◌≡◌, Option, none, some,
  arith, inl, inr, subst, ap, ◌∙◌, ltb, ◌==◌, if◌then◌else◌, Bool-cases, Option-cases,
}
use dfos.Pmm.State.{Pmm, node_at, active_numa_node_count, page_size}
use dfos.Pmm.Search.{pmm_find_free_frame_in_node_locked}
use dfos.Pmm.Alloc.{
  alloc_round_robin, is_preferred, preferred_frame, select_frame, to_address,
  pmm_alloc_frame_on_node,
}
use dfos.Pmm.FindFrame.{IsAllocated}
use dfos.Pmm.Nodes.{total_free_none, free_frames-total_free}
use dfos.Pmm.Valid.{IsValid}
use dfos.Pmm.RoundRobin.{
  IsRound, next_node-IsAllocated, search_none, search_some, alloc_round_robin-IsRound,
}

-- The round that visits a given node.
visit_of : (n start id : ℕ) → start < n → id < n → (j : ℕ) × (j < n) × ((start + j) % n ≡ id)
visit_of n start id p q = elim (Bool-cases (ltb id start)) [
  | inl t ↦
      let e : start + (id + n - start) ≡ id + n = ground (arith, t) in
      (id + n - start, ground (arith, t), ap (λ u. u % n) e ∙ add-mod_right id n ∙ mod-eq_of_lt q)
  | inr u ↦
      let e : start + (id - start) ≡ id = ground (arith, u) in
      (id - start, ground (arith, u), ap (λ v. v % n) e ∙ mod-eq_of_lt q)
]

preferred_searched :
    (s : Pmm) (preferred : ℕ)
    → is_preferred s preferred ≡ true
    → (o : Option (ℕ × Pmm)) → preferred_frame s preferred ≡ o
    → pmm_find_free_frame_in_node_locked s preferred ≡ o
unfolding preferred_frame
preferred_searched s preferred asked o e =
    subst (λ t. (if t then pmm_find_free_frame_in_node_locked s preferred else none) ≡ o) asked e

none-some : {r : ℕ × Pmm} → none ≡ some r → ⊥
none-some e = cc

preferred_some :
    (s : Pmm) (preferred : ℕ)
    → IsValid s
    → (r : ℕ × Pmm) → preferred_frame s preferred ≡ some r
    → IsAllocated s r.0 r.1
unfolding preferred_frame
preferred_some s preferred v r e = elim (Bool-cases (is_preferred s preferred)) [
  | inl t ↦ search_some s preferred v r (preferred_searched s preferred t (some r) e)
  | inr u ↦ absurd (
      none-some (
        subst (λ t. (if t then pmm_find_free_frame_in_node_locked s preferred else none) ≡ some r) u
          e))
]

-- A round over all the nodes that finds nothing after the preferred node had nothing.
round_none :
    (s : Pmm) (preferred start : ℕ)
    → IsValid s
    → start < active_numa_node_count s
    → preferred_frame s preferred ≡ none
    → alloc_round_robin s preferred start 0 (active_numa_node_count s) ≡ none
    → s.free_frames ≡ 0
unfolding IsRound
round_none s preferred start v p here there =
    let n = active_numa_node_count s in
    let round =
      subst (IsRound s preferred start 0 n) there
        (alloc_round_robin-IsRound s preferred start 0 n v (omega arith)) in
    free_frames-total_free s v
    ∙ total_free_none s.numa_nodes (λ id q.
      elim (Bool-cases (is_preferred s preferred && id == preferred)) [
        | inl t ↦
            let asked : is_preferred s preferred ≡ true = ground (arith, t) in
            let same : preferred ≡ id = ground (arith, t) in
            search_none s id v
              (subst (λ u. pmm_find_free_frame_in_node_locked s u ≡ none) same
                (preferred_searched s preferred asked none here))
              q
        | inr u ↦
            let (j, lt, e) = visit_of n start id p q in
            subst
              (λ w.
                (is_preferred s preferred && w == preferred) ≡ false
                → (node_at s w).free_frames ≡ 0)
              e (round j (omega arith) (omega arith)) u
      ])

unfoldable IsSelected : Pmm → Option (ℕ × Pmm) → Type 0
IsSelected s none = s.free_frames ≡ 0
IsSelected s (some (frame, s')) = IsAllocated s frame s'

select_frame-IsSelected :
    (s : Pmm) (preferred : ℕ)
    → IsValid s
    → 0 < active_numa_node_count s
    → IsSelected s (select_frame s preferred)
unfolding select_frame IsSelected IsRound
select_frame-IsSelected s preferred v pos =
    let n = active_numa_node_count s in
    let start = s.round_robin_numa_node % n in
    elim (Option-cases (preferred_frame s preferred)) [
      | inr (r, e) ↦
          rw (e, select_frame)
            (next_node-IsAllocated s preferred r.0 r.1 (preferred_some s preferred v r e))
      | inl here ↦ elim (Option-cases (alloc_round_robin s preferred start 0 n)) [
        | inl there ↦
            rw (here, there, select_frame)
              (round_none s preferred start v (mod-lt s.round_robin_numa_node pos) here there)
        | inr (r, e) ↦
            rw (here, e, select_frame)
              (subst (IsRound s preferred start 0 n) e
                (alloc_round_robin-IsRound s preferred start 0 n v pos))
      ]
    ]

-- The answer of an allocation. It fails only before the manager is initialized or when no frame is free;
-- otherwise it answers the address of a frame that was free.
unfoldable pub IsFrameAnswer : Pmm → Option (ℕ × Pmm) → Type 0
IsFrameAnswer s none = (s.initialized && ltb 0 s.free_frames) ≡ false
IsFrameAnswer s (some (address, s')) =
    ((s.initialized && ltb 0 s.free_frames) ≡ true)
    × (address % page_size ≡ 0)
    × IsAllocated s (address / page_size) s'

selected_none :
    (s : Pmm) (preferred : ℕ)
    → IsSelected s (select_frame s preferred)
    → select_frame s preferred ≡ none
    → s.free_frames ≡ 0
unfolding IsSelected
selected_none s preferred h e = subst (IsSelected s) e h

selected_some :
    (s : Pmm) (preferred : ℕ)
    → IsSelected s (select_frame s preferred)
    → (r : ℕ × Pmm) → select_frame s preferred ≡ some r
    → IsAllocated s r.0 r.1
unfolding IsSelected
selected_some s preferred h r e = subst (IsSelected s) e h

to_address-IsAllocated :
    (s : Pmm) (r : ℕ × Pmm)
    → IsValid s
    → IsAllocated s r.0 r.1
    → ((to_address r).0 % page_size ≡ 0)
      × IsAllocated s ((to_address r).0 / page_size) (to_address r).1
unfolding to_address IsAllocated
to_address-IsAllocated s (frame, s') v (lt, free, bits, count, total, v') =
    let e : frame ≡ frame * page_size % 2 ^ 32 / page_size = omega (arith, v.fits) in
    (omega arith, subst (λ u. IsAllocated s u s') e (lt, free, bits, count, total, v'))

-- In a valid state the allocation of a frame fails exactly if the manager is not initialized or
-- no frame is free; otherwise it answers the address of a managed frame that was free, only that
-- frame becomes used, the count drops by one, and the state stays valid.
pub pmm_alloc_frame_on_node-IsFrameAnswer :
    (s : Pmm) (preferred : ℕ) → IsValid s → IsFrameAnswer s (pmm_alloc_frame_on_node s preferred)
unfolding pmm_alloc_frame_on_node IsFrameAnswer
pmm_alloc_frame_on_node-IsFrameAnswer s preferred v =
    let empty : active_numa_node_count s ≡ 0 → s.free_frames ≡ 0 = λ e.
      free_frames-total_free s v ∙ total_free_none s.numa_nodes (λ id p. absurd (omega arith)) in
    elim (Bool-cases ((not s.initialized || active_numa_node_count s == 0) || s.free_frames == 0)) [
      | inl t ↦ rw (t) (ground (arith, t, empty))
      | inr u ↦
          let selected = select_frame-IsSelected s preferred v (ground (arith, u)) in
          elim (Option-cases (select_frame s preferred)) [
            | inl e ↦ rw (u, e) (ground (arith, u, selected_none s preferred selected e))
            | inr (r, e) ↦
                let (aligned, allocated) =
                  to_address-IsAllocated s r v (selected_some s preferred selected r e) in
                rw (u, e) (ground (arith, u), aligned, allocated)
          ]
    ]
