-- ===== src/Memory/Maps.antt =====
-- BuildVirtualMemoryMap of the three families' MemoryInitPeiLib: the table of regions that
-- ArmConfigureMmu maps. The device ranges are those of T600XFamilyVirtualMemoryMapDefines.h and of
-- its copies for the other two families, in the order of the code.
use apple_silicon_platforms.Prelude.{
  ℕ, ◌+◌, ◌*◌, ◌%◌, ◌^◌, Bool, Option, none, some, List, [], ◌∷◌, ◌++◌, bit_and, ◌==◌,
  if◌then◌else◌,
}
use apple_silicon_platforms.Platform.Io.{not64}
use apple_silicon_platforms.Memory.Peim.{PlatformPcds}

-- ARM_MEMORY_REGION_ATTRIBUTES as the tables use it; `attribute_zero` is the end marker's
pub data MemoryAttribute : Type 0 where
  attribute_zero device write_back uncached_unbuffered : MemoryAttribute

-- ARM_MEMORY_REGION_DESCRIPTOR
pub record MemoryRegion : Type 0 where
  pub physical_base : ℕ
  pub virtual_base : ℕ
  pub region_length : ℕ
  pub attributes : MemoryAttribute

-- A region whose virtual base is written from the same value as its physical base
abbrev pub region : ℕ → ℕ → MemoryAttribute → MemoryRegion
region base size attributes = record {
  physical_base = base;
  virtual_base = base;
  region_length = size;
  attributes = attributes;
}

abbrev pub device_region : ℕ → ℕ → MemoryRegion
device_region base size = region base size device

abbrev pub end_of_table : MemoryRegion
end_of_table = region 0 0 attribute_zero

abbrev size_512mb : ℕ
size_512mb = 0x20000000

abbrev size_1gb : ℕ
size_1gb = 0x40000000

abbrev size_2gb : ℕ
size_2gb = 2 * size_1gb

abbrev size_4gb : ℕ
size_4gb = 4 * size_1gb

abbrev size_8gb : ℕ
size_8gb = 8 * size_1gb

abbrev size_16gb : ℕ
size_16gb = 16 * size_1gb

unfoldable pub t600x_device_regions_1 : List MemoryRegion
t600x_device_regions_1 =
    device_region 0x280000000 size_1gb
    ∷ device_region 0x380000000 size_1gb
    ∷ device_region 0x580000000 size_512mb
    ∷ device_region 0x5A0000000 size_512mb
    ∷ device_region 0x5C0000000 size_1gb
    ∷ device_region 0x700000000 size_1gb
    ∷ device_region 0x800000000 size_8gb
    ∷ device_region 0xA00000000 size_2gb
    ∷ device_region 0xB00000000 size_1gb
    ∷ device_region 0xC00000000 size_8gb
    ∷ device_region 0xE00000000 size_2gb
    ∷ device_region 0xF00000000 size_1gb
    ∷ device_region 0x1000000000 size_8gb
    ∷ device_region 0x1200000000 size_2gb
    ∷ device_region 0x1300000000 size_1gb
    ∷ device_region 0x1400000000 size_8gb
    ∷ device_region 0x1600000000 size_2gb
    ∷ device_region 0x2280000000 size_1gb
    ∷ []

unfoldable pub t600x_device_regions_2 : List MemoryRegion
t600x_device_regions_2 =
    device_region 0x2380000000 size_1gb
    ∷ device_region 0x2580000000 size_512mb
    ∷ device_region 0x25A0000000 size_512mb
    ∷ device_region 0x25C0000000 size_1gb
    ∷ device_region 0x2700000000 size_1gb
    ∷ device_region 0x2800000000 size_8gb
    ∷ device_region 0x2A00000000 size_2gb
    ∷ device_region 0x2B00000000 size_1gb
    ∷ device_region 0x2C00000000 size_8gb
    ∷ device_region 0x2E00000000 size_2gb
    ∷ device_region 0x2F00000000 size_1gb
    ∷ device_region 0x3000000000 size_8gb
    ∷ device_region 0x3200000000 size_2gb
    ∷ device_region 0x3300000000 size_1gb
    ∷ device_region 0x3400000000 size_8gb
    ∷ device_region 0x3600000000 size_2gb
    ∷ device_region 0x5000000000 0x10000
    ∷ device_region 0x5100000000 0x200000
    ∷ []

unfoldable pub t602x_device_regions_1 : List MemoryRegion
t602x_device_regions_1 =
    device_region 0x280000000 size_1gb
    ∷ device_region 0x380000000 size_1gb
    ∷ device_region 0x580000000 size_512mb
    ∷ device_region 0x5A0000000 size_512mb
    ∷ device_region 0x5C0000000 size_1gb
    ∷ device_region 0x700000000 size_1gb
    ∷ device_region 0x800000000 size_8gb
    ∷ device_region 0xA00000000 size_2gb
    ∷ device_region 0xB00000000 size_1gb
    ∷ device_region 0xC00000000 size_8gb
    ∷ device_region 0xE00000000 size_2gb
    ∷ device_region 0xF00000000 size_1gb
    ∷ device_region 0x1000000000 size_8gb
    ∷ device_region 0x1200000000 size_2gb
    ∷ device_region 0x1300000000 size_1gb
    ∷ device_region 0x1400000000 size_8gb
    ∷ device_region 0x1600000000 size_2gb
    ∷ device_region 0x1700000000 size_4gb
    ∷ device_region 0x1800000000 size_16gb
    ∷ []

unfoldable pub t602x_device_regions_2 : List MemoryRegion
t602x_device_regions_2 =
    device_region 0x2280000000 size_1gb
    ∷ device_region 0x2380000000 size_1gb
    ∷ device_region 0x2580000000 size_512mb
    ∷ device_region 0x25A0000000 size_512mb
    ∷ device_region 0x25C0000000 size_1gb
    ∷ device_region 0x2700000000 size_1gb
    ∷ device_region 0x2800000000 size_8gb
    ∷ device_region 0x2A00000000 size_2gb
    ∷ device_region 0x2B00000000 size_1gb
    ∷ device_region 0x2C00000000 size_8gb
    ∷ device_region 0x2E00000000 size_2gb
    ∷ device_region 0x2F00000000 size_1gb
    ∷ device_region 0x3000000000 size_8gb
    ∷ device_region 0x3200000000 size_2gb
    ∷ device_region 0x3300000000 size_1gb
    ∷ device_region 0x3400000000 size_8gb
    ∷ device_region 0x3600000000 size_2gb
    ∷ device_region 0x5000000000 0x10000
    ∷ device_region 0x5100000000 0x200000
    ∷ []

unfoldable pub t810x_device_regions : List MemoryRegion
t810x_device_regions =
    device_region 0x200000000 size_2gb
    ∷ device_region 0x380000000 size_1gb
    ∷ device_region 0x400000000 size_2gb
    ∷ device_region 0x480000000 size_2gb
    ∷ device_region 0x500000000 size_1gb
    ∷ device_region 0x580000000 size_2gb
    ∷ device_region 0x600000000 size_2gb
    ∷ device_region 0x680000000 size_512mb
    ∷ device_region 0x6A0000000 size_512mb
    ∷ device_region 0xF00000000 0x10000
    ∷ device_region 0x6C0000000 size_1gb
    ∷ device_region 0xF10000000 0x200000
    ∷ device_region 0x700000000 0x100000000
    ∷ device_region 0xF20000000 0x200000
    ∷ []

-- MAX_VIRTUAL_MEMORY_MAP_DESCRIPTORS of each family
pub data Family : Type 0 where
  t600x t602x t810x : Family

unfoldable pub max_virtual_memory_map_descriptors : Family → ℕ
max_virtual_memory_map_descriptors t600x = 39
max_virtual_memory_map_descriptors t602x = 41
max_virtual_memory_map_descriptors t810x = 19

unfoldable pub device_regions : Family → List MemoryRegion
device_regions t600x = t600x_device_regions_1 ++ t600x_device_regions_2
device_regions t602x = t602x_device_regions_1 ++ t602x_device_regions_2
device_regions t810x = t810x_device_regions

-- The framebuffer's base in the T600X family's table: forced onto a page
unfoldable pub t600x_frame_buffer_base : ℕ → ℕ
t600x_frame_buffer_base base =
    if bit_and base 0xFFF == 0 then base else bit_and ((base + 0x1000) % 2 ^ 64) (not64 0xFFF)

unfoldable pub frame_buffer_region : Family → PlatformPcds → MemoryRegion
frame_buffer_region t600x p =
    region (t600x_frame_buffer_base p.frame_buffer_address) p.frame_buffer_size uncached_unbuffered
frame_buffer_region _ p = region p.frame_buffer_address p.frame_buffer_size uncached_unbuffered

-- The low memory window, which the T810X family's table has if it is not empty
unfoldable pub low_memory_regions : Family → PlatformPcds → List MemoryRegion
low_memory_regions t810x p =
    if p.low_memory_window_size == 0
    then []
    else region p.low_memory_window_base p.low_memory_window_size write_back ∷ []
low_memory_regions _ p = []

-- The regions behind the device ranges
unfoldable pub memory_regions : Family → PlatformPcds → List MemoryRegion
memory_regions family p =
    region p.memory.memory_base p.memory.memory_size write_back
    ∷ (low_memory_regions family p ++ (frame_buffer_region family p ∷ end_of_table ∷ []))

-- BuildVirtualMemoryMap; without pages for the table it returns and leaves the pointer unset, none
unfoldable pub build_virtual_memory_map : Family → Bool → PlatformPcds → Option (List MemoryRegion)
build_virtual_memory_map family allocated p =
    if allocated then some (device_regions family ++ memory_regions family p) else none
