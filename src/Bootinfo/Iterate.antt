-- ===== src/Bootinfo/Iterate.antt =====
-- The walk over the memory map (kernel/kernel/bootinfo.c).
use dfos.Base.{
  ℕ, zero, suc, ◌+◌, ◌-◌, ◌≤◌, ◌<◌, ◌^◌, Bool, true, false, ◌||◌, not, List, Option, none, some,
  ltb, leb, ◌==◌, ◌≡◌, refl, arith, if◌then◌else◌, Bool-cases, inl, inr, ◌⊎◌, Returns, Returns-bind,
  ◌>>=◌, ◌*◌, ◌∷◌, length, >>=-eq-some, ap,
}
use dfos.Base.Words.{add32}
use dfos.Bootinfo.{
  has_flag, multiboot_info_mem_map, Memory, MemoryRegion, Bootinfo, multiboot_map_bounds,
  multiboot_decode_memory_region, bootinfo_memory_next, bootinfo_memory_begin, memory_regions_from,
  memory_regions,
}

-- An entry was read: it lies in the map from the cursor on, with at least the 24 bytes of its
-- structure, and the next cursor stands behind it, or is 0 at the end of the map.
unfoldable pub IsNext : ℕ → ℕ → ℕ → Option (MemoryRegion × ℕ) → Type 0
IsNext start end cursor none = Unit
IsNext start end cursor (some (region, next)) =
    (start ≤ cursor) × (cursor + 24 ≤ end) × ((next ≡ 0) ⊎ ((cursor + 24 ≤ next) × (next < end)))

some_of {ℓ} :
    {A : Type ℓ} (test : Bool) (a c : A)
    → (if test then none else some a) ≡ some c
    → (test ≡ false) × (a ≡ c)
some_of true a c e = cc
some_of false a c e = (refl, cc)

-- The list of the entries from the cursor on has 24 bytes of the map for each.
unfoldable pub Covers : ℕ → ℕ → List MemoryRegion → Type 0
Covers end cursor regions = 24 * length regions ≤ end - cursor

-- The sizes of entries are 32-bit numbers.
unfoldable pub IsMemory : Memory → Type 0
IsMemory memory = (cursor : ℕ) → (memory.memory_map_at cursor).size < 2 ^ 32

map_bounds_word :
    (b : Bootinfo) (start end : ℕ) → multiboot_map_bounds b ≡ some (start, end) → end < 2 ^ 32
unfolding multiboot_map_bounds
map_bounds_word b start end e =
    let (info, _, f) = >>=-eq-some b.multiboot_info _ e in
    let (_, at) =
      some_of
        (not (has_flag info multiboot_info_mem_map)
          || ltb (add32 info.mmap_addr info.mmap_length) info.mmap_addr)
        (info.mmap_addr, add32 info.mmap_addr info.mmap_length) (start, end) f in
    let last : add32 info.mmap_addr info.mmap_length ≡ end = ap (λ p. p.1) at in omega arith

module _ (memory : Memory) (b : Bootinfo) (start end : ℕ)
    (bounds : multiboot_map_bounds b ≡ some (start, end)) (word : IsMemory memory) where
  -- If the map has bounds and the sizes of its entries are 32-bit numbers, an entry is answered
  -- only if its 24 bytes lie inside the map, and the next cursor stands behind them and inside
  -- the map, or is 0.
  pub bootinfo_memory_next-IsNext :
      (cursor : ℕ) → IsNext start end cursor (bootinfo_memory_next memory b cursor)
  unfolding bootinfo_memory_next multiboot_decode_memory_region IsNext IsMemory
  bootinfo_memory_next-IsNext cursor =
      let entry = memory.memory_map_at cursor in
      let small = map_bounds_word b start end bounds in
      let size = word cursor in
      let next = add32 cursor (add32 entry.size 4) in
      let next_test = leb next cursor || ltb end next in
      let entry_test =
        (ltb cursor start || leb end cursor)
        || ((ltb entry.size 20 || ltb (add32 entry.size 4) 4) || next_test) in
      elim (Bool-cases (cursor == 0 || (ltb cursor start || leb end cursor))) [
        | inl t ↦ rw (bounds, t, bootinfo_memory_next) tt
        | inr u ↦ elim (Bool-cases entry_test) [
          | inl t ↦ rw (bounds, u, t, bootinfo_memory_next) tt
          | inr v ↦
              rw (bounds, u, v, bootinfo_memory_next)
                (
                  ground (arith, u),
                  ground (arith, v, small, size),
                  (elim (Bool-cases (leb end next)) [
                    | inl w ↦ rw (w) (inl refl)
                    | inr w ↦ rw (w) (inr (ground (arith, v, small, size), ground (arith, w)))
                  ]),
                )
        ]
      ]

  -- A cursor of 0 ends the walk.
  next_none : bootinfo_memory_next memory b 0 ≡ none
  unfolding bootinfo_memory_next
  next_none = rw (bounds) refl

  regions_cons :
      (cursor next : ℕ) (region : MemoryRegion) (m : Option (List MemoryRegion))
      → cursor + 24 ≤ next
      → next ≤ end
      → Returns m (Covers end next)
      → Returns (m >>= λ regions. some (region ∷ regions)) (Covers end cursor)
  unfolding Covers
  regions_cons cursor next region m lt le h =
      Returns-bind (Covers end next) (Covers end cursor) m _ h (λ regions _ c. omega (arith, c))

  regions_from-Covers :
      (fuel cursor : ℕ) (e : Option (MemoryRegion × ℕ))
      → IsNext start end cursor e
      → 0 < fuel
      → end < fuel + cursor
      → Returns (memory_regions_from memory b fuel e) (Covers end cursor)
  unfolding memory_regions_from IsNext Covers
  regions_from-Covers zero cursor e h pos lt = absurd (omega arith)
  regions_from-Covers (suc fuel) cursor none h pos lt = omega arith
  regions_from-Covers (suc zero) cursor (some (region, next)) (lo, hi, at) pos lt =
      absurd (omega arith)
  regions_from-Covers (suc (suc fuel)) cursor (some (region, next)) (lo, hi, inl zero_next) pos lt =
      rw (zero_next, next_none, memory_regions_from) (omega arith)
  regions_from-Covers (suc (suc fuel)) cursor (some (region, next)) (lo, hi, inr (a, c)) pos lt =
      regions_cons cursor next region _ a (omega arith) (
        regions_from-Covers (suc fuel) next (bootinfo_memory_next memory b next)
          (bootinfo_memory_next-IsNext next) (omega arith) (omega arith))

  -- With more fuel than the map has bytes, and 32-bit sizes in the entries, the walk over the
  -- memory map returns, with at most one region for every 24 bytes of the map.
  pub memory_regions-Covers :
      (fuel : ℕ)
      → end < fuel + start
      → 0 < fuel
      → Returns (memory_regions memory b fuel) (Covers end start)
  unfolding memory_regions bootinfo_memory_begin
  memory_regions-Covers fuel lt pos =
      rw (bounds, memory_regions)
        (regions_from-Covers fuel start (bootinfo_memory_next memory b start)
          (bootinfo_memory_next-IsNext start) pos lt)
