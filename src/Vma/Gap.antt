-- ===== src/Vma/Gap.antt =====
-- The search for a gap in kernel/kernel/vma.c: `align_up_u32`, `add_fits_limit` and
-- `gap_search_in_order`. Arithmetic is that of uint64_t where the code casts to it.
use dfos.Base.{ℕ, ◌+◌, ◌-◌, ◌%◌, ◌^◌, Bool, true, false, ltb, leb, if◌then◌else◌, bit_and}
use dfos.Vma.Node.{Region, Tree, null, node}

unfoldable pub align_up_u32 : ℕ → ℕ → ℕ
align_up_u32 value alignment =
    if leb alignment 1
    then value
    else (let aligned = bit_and ((value + alignment - 1) % 2 ^ 64) (2 ^ 64 - 1 - (alignment - 1)) in
        if ltb 0xffff_ffff aligned then 0 else aligned)

-- The sum of two values of 32 bits does not wrap in 64.
unfoldable pub add_fits_limit : ℕ → ℕ → ℕ → Bool
add_fits_limit start size limit = leb (start + size) limit

-- `gap_search_state_t`, with `length` as `size`
pub record GapSearch : Type 0 where
  pub cursor : ℕ
  pub max_addr : ℕ
  pub size : ℕ
  pub alignment : ℕ
  pub result : ℕ
  pub found : Bool

-- What `gap_search_in_order` does at a node, between its children.
unfoldable pub visit : Region → GapSearch → GapSearch
visit x s =
    if ltb s.cursor x.end
    then (let gap_end = if ltb s.max_addr x.start then s.max_addr else x.start in
        let next = align_up_u32 x.end s.alignment in
        let next_cursor = if ltb next s.cursor then s.max_addr else next in
        if add_fits_limit s.cursor s.size gap_end
        then record s { result = s.cursor; found = true }
        else record s { cursor = if ltb s.max_addr next_cursor then s.max_addr else next_cursor })
    else s

unfoldable pub gap_search_in_order : Tree → GapSearch → GapSearch
gap_search_in_order null s = s
gap_search_in_order (node x h l r) s = elim s.found [
  | true ↦ s
  | false ↦
      let s1 = gap_search_in_order l s in
      elim s1.found [
        | true ↦ s1
        | false ↦
            let s2 = visit x s1 in elim s2.found [ true ↦ s2 | false ↦ gap_search_in_order r s2 ]
      ]
]
