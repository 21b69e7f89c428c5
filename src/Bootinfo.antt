-- ===== src/Bootinfo.antt =====
-- The boot information (kernel/kernel/bootinfo.c). What the loader left in physical memory is read
-- through `Memory`, one reader per structure.
pub mod Iterate
mod Tests
use mathlib.Core.Option
use dfos.Base.{
  ℕ, zero, suc, ◌+◌, ◌*◌, ◌<◌, Bool, true, false, ◌&&◌, ◌||◌, not, List, [], ◌∷◌, Option, none,
  some, ltb, leb, ◌==◌, if◌then◌else◌, bit_and, ◌>>=◌,
}
use dfos.Base.Words.{add32}

abbrev pub multiboot_bootloader_magic : ℕ
multiboot_bootloader_magic = 0x2BADB002

abbrev pub multiboot_info_memory : ℕ
multiboot_info_memory = 0x1

abbrev pub multiboot_info_modules : ℕ
multiboot_info_modules = 0x8

abbrev pub multiboot_info_mem_map : ℕ
multiboot_info_mem_map = 0x40

-- The fields that are read.
pub record MultibootInfo : Type 0 where
  pub flags : ℕ
  pub mem_lower : ℕ
  pub mem_upper : ℕ
  pub mods_count : ℕ
  pub mods_addr : ℕ
  pub mmap_length : ℕ
  pub mmap_addr : ℕ

pub record MultibootMemoryMap : Type 0 where
  pub size : ℕ
  pub addr : ℕ
  pub len : ℕ
  pub type_ : ℕ

pub record MultibootModule : Type 0 where
  pub mod_start : ℕ
  pub mod_end : ℕ
  pub string : ℕ

pub record Memory : Type 0 where
  pub info_at : ℕ → MultibootInfo
  pub memory_map_at : ℕ → MultibootMemoryMap
  pub module_at : ℕ → MultibootModule

pub record MemoryRegion : Type 0 where
  pub base : ℕ
  pub length : ℕ
  pub region_type : ℕ

-- A missing string is `none`.
pub record BootModule : Type 0 where
  pub start : ℕ
  pub end : ℕ
  pub string : Option ℕ

pub data LoaderKind : Type 0 where
  loader_unknown : LoaderKind
  loader_multiboot1 : LoaderKind

pub record Bootinfo : Type 0 where
  pub loader_kind : LoaderKind
  pub info_phys : ℕ
  pub multiboot_info : Option MultibootInfo

-- sizeof(multiboot_memory_map_t), sizeof(multiboot_info_t) and sizeof(multiboot_module_t), packed.
abbrev pub sizeof_memory_map : ℕ
sizeof_memory_map = 24

abbrev pub sizeof_module : ℕ
sizeof_module = 16

unfoldable pub has_flag : MultibootInfo → ℕ → Bool
has_flag info flag = not (bit_and info.flags flag == 0)

unfoldable pub bootinfo_init : Memory → ℕ → ℕ → Bool × Bootinfo
bootinfo_init memory boot_magic boot_info_phys =
    if boot_magic == multiboot_bootloader_magic
    then (
      true,
      record {
        loader_kind = loader_multiboot1;
        info_phys = boot_info_phys;
        multiboot_info = some (memory.info_at boot_info_phys);
      },
    )
    else (false, record { loader_kind = loader_unknown; info_phys = 0; multiboot_info = none })

-- The start and the end of the map.
unfoldable pub multiboot_map_bounds : Bootinfo → Option (ℕ × ℕ)
multiboot_map_bounds b = b.multiboot_info >>= λ info.
    let end = add32 info.mmap_addr info.mmap_length in
    if not (has_flag info multiboot_info_mem_map) || ltb end info.mmap_addr
    then none
    else some (info.mmap_addr, end)

-- The region at the cursor, and the next cursor.
unfoldable pub multiboot_decode_memory_region : Memory → Bootinfo → ℕ → Option (MemoryRegion × ℕ)
multiboot_decode_memory_region memory b cursor_phys = multiboot_map_bounds b >>= λ (start, end).
    let entry = memory.memory_map_at cursor_phys in
    let payload_size = entry.size in
    let entry_size = add32 payload_size 4 in
    let next_cursor = add32 cursor_phys entry_size in
    if (ltb cursor_phys start || leb end cursor_phys)
      || ((ltb payload_size 20 || ltb entry_size 4)
          || (leb next_cursor cursor_phys || ltb end next_cursor))
    then none
    else some
        (record { base = entry.addr; length = entry.len; region_type = entry.type_ }, next_cursor)

-- The iterator is its cursor.
unfoldable pub bootinfo_memory_next : Memory → Bootinfo → ℕ → Option (MemoryRegion × ℕ)
bootinfo_memory_next memory b cursor_phys = multiboot_map_bounds b >>= λ (start, end).
    if cursor_phys == 0 || (ltb cursor_phys start || leb end cursor_phys)
    then none
    else multiboot_decode_memory_region memory b cursor_phys >>= λ (region, next_cursor).
        some (region, if leb end next_cursor then 0 else next_cursor)

unfoldable pub bootinfo_memory_begin : Memory → Bootinfo → Option (MemoryRegion × ℕ)
bootinfo_memory_begin memory b =
    multiboot_map_bounds b >>= λ (start, end). bootinfo_memory_next memory b start

-- The loop of `pmm_init` over all regions, from an entry on; `none` if the fuel runs out.
unfoldable pub memory_regions_from :
    Memory → Bootinfo → ℕ → Option (MemoryRegion × ℕ) → Option (List MemoryRegion)
memory_regions_from memory b zero entry = none
memory_regions_from memory b (suc fuel) none = some []
memory_regions_from memory b (suc fuel) (some (region, cursor)) =
    memory_regions_from memory b fuel (bootinfo_memory_next memory b cursor) >>= λ regions.
    some (region ∷ regions)

unfoldable pub memory_regions : Memory → Bootinfo → ℕ → Option (List MemoryRegion)
memory_regions memory b fuel = memory_regions_from memory b fuel (bootinfo_memory_begin memory b)

abbrev pub when_multiboot : Bootinfo → (MultibootInfo → ℕ) → ℕ
when_multiboot b f = elim b.loader_kind [
  | loader_unknown ↦ 0
  | loader_multiboot1 ↦ elim b.multiboot_info [ none ↦ 0 | some info ↦ f info ]
]

unfoldable pub bootinfo_memory_map_size : Bootinfo → ℕ
bootinfo_memory_map_size b =
    when_multiboot b (λ info. if has_flag info multiboot_info_mem_map then info.mmap_length else 0)

unfoldable pub bootinfo_lower_memory_kib : Bootinfo → ℕ
bootinfo_lower_memory_kib b =
    when_multiboot b (λ info. if has_flag info multiboot_info_memory then info.mem_lower else 0)

unfoldable pub bootinfo_upper_memory_kib : Bootinfo → ℕ
bootinfo_upper_memory_kib b =
    when_multiboot b (λ info. if has_flag info multiboot_info_memory then info.mem_upper else 0)

unfoldable pub bootinfo_module_count : Bootinfo → ℕ
bootinfo_module_count b =
    when_multiboot b (λ info. if has_flag info multiboot_info_modules then info.mods_count else 0)

unfoldable pub bootinfo_module_at : Memory → Bootinfo → ℕ → Option BootModule
bootinfo_module_at memory b index = b.multiboot_info >>= λ info.
    let entry = memory.module_at (add32 info.mods_addr (index * sizeof_module)) in
    if leb (bootinfo_module_count b) index
    then none
    else some (record {
      start = entry.mod_start;
      end = entry.mod_end;
      string = if entry.string == 0 then none else some entry.string;
    })
