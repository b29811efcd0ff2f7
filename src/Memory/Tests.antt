-- ===== src/Memory/Tests.antt =====
-- The memory initialisation's theorems at concrete inputs: 8 GB of memory with a firmware device of
-- 8 MB in it, a framebuffer of 16 MB, two cores of which one has a carveout, and no descriptor yet.
use apple_silicon_platforms.Prelude.{
  ℕ, ◌+◌, ◌≡◌, refl, true, false, Option, none, some, List, [], ◌∷◌, arith, if◌then◌else◌, ◌==◌,
}
use apple_silicon_platforms.Platform.Status.{success}
use apple_silicon_platforms.Platform.Adt.{Adt}
use apple_silicon_platforms.Display.Validation.{validate_framebuffer_range}
use apple_silicon_platforms.Memory.Hobs.{
  MemoryPcds, declares_memory, declare_memory, memory_peim, split_firmware, split_hob,
  holds_firmware, append_built,
}
use apple_silicon_platforms.Memory.Partition.{coverage, memory_peim-coverage}
use apple_silicon_platforms.Memory.Reserve.{HobList, any_covers, covers, reserve_memory_region}
use apple_silicon_platforms.Memory.Peim.{
  PlatformPcds, carveout, carveout_region, memory_peim_t810x, memory_peim_t602x,
  reserve_carveouts_t602x,
}
use apple_silicon_platforms.Memory.Safety.{
  system_coverage, IsSound, reserve_memory_region-system_coverage,
}
use apple_silicon_platforms.Memory.Shrinking.{Fits, IsInRange}
use apple_silicon_platforms.Memory.FrameBuffer.{memory_peim_t810x-frame_buffer}
use apple_silicon_platforms.Memory.Maps.{
  MemoryRegion, t810x, device_regions, build_virtual_memory_map,
}
use apple_silicon_platforms.Memory.MapLaws.{
  IsValidMap, all_apart, build_virtual_memory_map-IsValidMap,
}

abbrev pcds : MemoryPcds
pcds = record {
  memory_base = 0x800000000;
  memory_size = 0x200000000;
  fd_base = 0x810000000;
  fd_size = 0x800000;
}

memory_peim-coverage_example : coverage 0x810000100 (memory_peim pcds []) ≡ 1
unfolding declares_memory
memory_peim-coverage_example =
    memory_peim-coverage pcds [] 0x810000100 tt (omega arith) (omega arith)

abbrev platform : PlatformPcds
platform = record {
  memory = pcds;
  frame_buffer_address = 0x9F0000000;
  frame_buffer_size = 0x1000000;
  core_count = 2;
  preloaded_ramdisk_base = 0;
  preloaded_ramdisk_max_size = 0;
  low_memory_window_base = 0x100000;
  low_memory_window_size = 0x100000;
  low_memory_window_backing_base = 0x9E0000000;
}

abbrev adt : Adt
adt = record {
  get = λ name. none;
  text = λ node name. none;
  words = λ node name. some (0xE8000000 ∷ 9 ∷ 0x10000 ∷ 0 ∷ []);
  u32 = λ node name i. none;
  reg = λ node i. none;
}

abbrev cpu_node : ℕ → Option ℕ
cpu_node i = if i == 1 then some 7 else none

abbrev hobs : HobList
hobs = record {
  handoff = record {
    is_system_memory = false;
    attribute = 0;
    physical_start = 0;
    resource_length = 0;
  };
  resources = [];
  allocations = [];
}

platform-IsInRange : IsInRange platform
platform-IsInRange = record {
  memory_fits = omega arith;
  fd_fits = omega arith;
  ramdisk_fits = omega arith;
  window_fits = omega arith;
  backing_fits = omega arith;
  address_fits = omega arith;
  size_fits = omega arith;
}

hobs-IsSound : IsSound hobs
hobs-IsSound = record { table = refl; ends = tt }

carveouts_fit : (i : ℕ) (region : ℕ × ℕ) → carveout adt (cpu_node i) ≡ some region → Fits region
unfolding carveout carveout_region
carveouts_fit i region e = ground arith

frame_buffer_valid : validate_framebuffer_range 0x9F0000000 0x1000000 0x800000000 0x200000000 ≡ true
unfolding validate_framebuffer_range
frame_buffer_valid = refl

frame_buffer_covered : any_covers 0x9F0000000 0x1000000 (memory_peim pcds []) ≡ true
unfolding any_covers covers memory_peim declare_memory declares_memory split_firmware split_hob
    holds_firmware append_built
frame_buffer_covered = refl

frame_buffer_once : system_coverage 0x9F0000123 (memory_peim pcds []) ≡ 1
unfolding memory_peim declare_memory declares_memory split_firmware split_hob holds_firmware
    append_built
frame_buffer_once = refl

memory_peim_t810x-frame_buffer_example :
    ((memory_peim_t810x adt cpu_node platform hobs).0 ≡ success)
    × (system_coverage 0x9F0000123 (memory_peim_t810x adt cpu_node platform hobs).1.resources ≡ 0)
memory_peim_t810x-frame_buffer_example =
    memory_peim_t810x-frame_buffer adt cpu_node platform hobs 0x9F0000123 platform-IsInRange
      carveouts_fit hobs-IsSound frame_buffer_valid frame_buffer_covered
      (omega (arith, frame_buffer_once)) (omega arith) (omega arith) refl

-- One descriptor for 1 GB of memory, from which 64 KB in its middle are reserved.
abbrev one_region : HobList
one_region = record hobs {
  resources =
      record {
        is_system_memory = true;
        attribute = 7;
        physical_start = 0x40000000;
        resource_length = 0x40000000;
      }
      ∷ [];
}

one_region-IsSound : IsSound one_region
one_region-IsSound = record { table = refl; ends = (omega arith, tt) }

reserve_memory_region-system_coverage_example :
    system_coverage 0x50001000 (reserve_memory_region 0x50000000 0x10000 one_region).resources + 1
    ≡ 1
unfolding any_covers covers
reserve_memory_region-system_coverage_example =
    reserve_memory_region-system_coverage 0x50000000 0x10000 (omega arith) one_region
      one_region-IsSound 0x50001000

-- The T602X family's loop reads through NULL at core 0, which has no node.
t602x_faults : memory_peim_t602x adt cpu_node pcds 2 hobs ≡ none
unfolding memory_peim_t602x reserve_carveouts_t602x carveout
t602x_faults = refl

build_virtual_memory_map-IsValidMap_example :
    (table : List MemoryRegion) × (build_virtual_memory_map t810x true platform ≡ some table)
    × IsValidMap t810x table
    × (all_apart (device_regions t810x) ≡ true)
build_virtual_memory_map-IsValidMap_example =
    build_virtual_memory_map-IsValidMap t810x platform (omega arith) (omega arith)
