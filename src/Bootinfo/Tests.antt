-- ===== src/Bootinfo/Tests.antt =====
-- A memory map of two entries (kernel/kernel/bootinfo.c).
use dfos.Base.{◌≡◌, ◌==◌, if◌then◌else◌, refl, some, arith, Returns}
use dfos.Bootinfo.{
  Memory, Bootinfo, MultibootInfo, has_flag, loader_multiboot1, multiboot_map_bounds,
  bootinfo_memory_next, memory_regions,
}
use dfos.Bootinfo.Iterate.{
  IsMemory, IsNext, Covers, bootinfo_memory_next-IsNext, memory_regions-Covers,
}

abbrev info : MultibootInfo
info = record {
  flags = 0x40;
  mem_lower = 0;
  mem_upper = 0;
  mods_count = 0;
  mods_addr = 0;
  mmap_length = 48;
  mmap_addr = 0x1000;
}

abbrev memory : Memory
memory = record {
  info_at = λ _. info;
  memory_map_at = λ cursor. record {
    size = 20;
    addr = if cursor == 0x1000 then 0 else 0x100000;
    len = 0x80000;
    type_ = 1;
  };
  module_at = λ _. record { mod_start = 0; mod_end = 0; string = 0 };
}

abbrev booted : Bootinfo
booted = record { loader_kind = loader_multiboot1; info_phys = 0x500; multiboot_info = some info }

booted_bounds : multiboot_map_bounds booted ≡ some (0x1000, 0x1030)
unfolding multiboot_map_bounds has_flag
booted_bounds = refl

memory-IsMemory : IsMemory memory
unfolding IsMemory
memory-IsMemory = λ cursor. omega arith

bootinfo_memory_next-IsNext_example :
    IsNext 0x1000 0x1030 0x1000 (bootinfo_memory_next memory booted 0x1000)
bootinfo_memory_next-IsNext_example =
    bootinfo_memory_next-IsNext memory booted 0x1000 0x1030 booted_bounds memory-IsMemory 0x1000

memory_regions-Covers_example : Returns (memory_regions memory booted 49) (Covers 0x1030 0x1000)
memory_regions-Covers_example =
    memory_regions-Covers memory booted 0x1000 0x1030 booted_bounds memory-IsMemory 49 (omega arith)
      (omega arith)
