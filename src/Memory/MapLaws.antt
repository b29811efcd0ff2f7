-- ===== src/Memory/MapLaws.antt =====
-- The table of BuildVirtualMemoryMap has room in the array that is allocated for it, maps each
-- region to itself, and ArmConfigureMmu sees all of it.
use apple_silicon_platforms.Prelude.{
  ◌+◌, ◌≤◌, ◌<◌, ◌≡◌, refl, Bool, true, ◌&&◌, ◌||◌, some, List, [], ◌∷◌, ◌++◌, leb, ltb, ◌==◌,
  if◌then◌else◌, arith, All, length, length-append, Bool-cases, inl, inr,
}
use apple_silicon_platforms.Memory.Peim.{PlatformPcds}
use apple_silicon_platforms.Memory.Maps.{
  MemoryRegion, Family, t600x, t602x, t810x, device_regions, memory_regions, low_memory_regions,
  frame_buffer_region, max_virtual_memory_map_descriptors, build_virtual_memory_map,
  t600x_device_regions_1, t600x_device_regions_2, t602x_device_regions_1, t602x_device_regions_2,
  t810x_device_regions,
}

-- The regions that ArmConfigureMmu maps: those in front of the first empty one.
abbrev pub visible : List MemoryRegion → List MemoryRegion
visible [] = []
visible (r ∷ rs) = if r.region_length == 0 then [] else r ∷ visible rs

abbrev apart : MemoryRegion → MemoryRegion → Bool
apart r s =
    leb (r.physical_base + r.region_length) s.physical_base
    || leb (s.physical_base + s.region_length) r.physical_base

abbrev apart_from_all : MemoryRegion → List MemoryRegion → Bool
apart_from_all r [] = true
apart_from_all r (s ∷ rs) = apart r s && apart_from_all r rs

-- No two regions of the list have an address in common, and none is empty.
abbrev pub all_apart : List MemoryRegion → Bool
all_apart [] = true
all_apart (r ∷ rs) = ltb 0 r.region_length && (apart_from_all r rs && all_apart rs)

abbrev pub IsIdentity : MemoryRegion → Type 0
IsIdentity r = r.virtual_base ≡ r.physical_base

-- What a table promises.
pub record IsValidMap (family : Family) (table : List MemoryRegion) : Type 0 where
  pub fits : length table ≤ max_virtual_memory_map_descriptors family
  pub identity : All IsIdentity table
  pub seen : length (visible table) + 1 ≡ length table

devices_apart : (family : Family) → all_apart (device_regions family) ≡ true
unfolding device_regions t600x_device_regions_1 t600x_device_regions_2 t602x_device_regions_1
    t602x_device_regions_2 t810x_device_regions
devices_apart t600x = refl
devices_apart t602x = refl
devices_apart t810x = refl

-- The part of the table behind the device ranges.
memory_regions-seen :
    (family : Family) (p : PlatformPcds)
    → 0 < p.memory.memory_size
    → 0 < p.frame_buffer_size
    → length (visible (memory_regions family p)) + 1 ≡ length (memory_regions family p)
unfolding memory_regions low_memory_regions frame_buffer_region
memory_regions-seen t600x p m f = ground arith
memory_regions-seen t602x p m f = ground arith
memory_regions-seen t810x p m f = ground arith

memory_regions-IsIdentity :
    (family : Family) (p : PlatformPcds) → All IsIdentity (memory_regions family p)
unfolding memory_regions low_memory_regions frame_buffer_region
memory_regions-IsIdentity t600x p = ground arith
memory_regions-IsIdentity t602x p = ground arith
memory_regions-IsIdentity t810x p = elim (Bool-cases (p.low_memory_window_size == 0)) [
  | inl e ↦ rw e (refl, (refl, (refl, tt)))
  | inr e ↦ rw e (refl, (refl, (refl, (refl, tt))))
]

memory_regions-length : (family : Family) (p : PlatformPcds) → length (memory_regions family p) ≤ 4
unfolding memory_regions low_memory_regions
memory_regions-length t600x p = ground arith
memory_regions-length t602x p = ground arith
memory_regions-length t810x p = ground arith

-- Regions that are not empty hide nothing behind them.
visible-append :
    (rs ts : List MemoryRegion)
    → all_apart rs ≡ true
    → length (visible (rs ++ ts)) ≡ length rs + length (visible ts)
visible-append [] ts h = omega arith
visible-append (r ∷ rs) ts h = ground (arith, visible-append rs ts)

IsIdentity-append :
    (rs ts : List MemoryRegion) → All IsIdentity rs → All IsIdentity ts → All IsIdentity (rs ++ ts)
IsIdentity-append [] ts h k = k
IsIdentity-append (r ∷ rs) ts h k = (h.0, IsIdentity-append rs ts h.1 k)

devices-IsIdentity : (family : Family) → All IsIdentity (device_regions family)
unfolding device_regions t600x_device_regions_1 t600x_device_regions_2 t602x_device_regions_1
    t602x_device_regions_2 t810x_device_regions
devices-IsIdentity t600x = omega arith
devices-IsIdentity t602x = omega arith
devices-IsIdentity t810x = omega arith

table_fits :
    (family : Family) (p : PlatformPcds)
    → length (device_regions family) + length (memory_regions family p)
      ≤ max_virtual_memory_map_descriptors family
unfolding device_regions t600x_device_regions_1 t600x_device_regions_2 t602x_device_regions_1
    t602x_device_regions_2 t810x_device_regions memory_regions low_memory_regions
    max_virtual_memory_map_descriptors
table_fits t600x p = omega arith
table_fits t602x p = omega arith
table_fits t810x p = ground arith

-- BuildVirtualMemoryMap of each family, where its pages are allocated and neither system memory nor
-- the framebuffer is empty: it sets a table that has room in the array, maps each region to itself,
-- and of which ArmConfigureMmu, which stops at the first empty region, sees all but the end marker.
-- The device ranges in front are not empty and no two of them have an address in common.
pub build_virtual_memory_map-IsValidMap :
    (family : Family) (p : PlatformPcds)
    → 0 < p.memory.memory_size
    → 0 < p.frame_buffer_size
    → (table : List MemoryRegion) × (build_virtual_memory_map family true p ≡ some table)
      × IsValidMap family table
      × (all_apart (device_regions family) ≡ true)
unfolding build_virtual_memory_map
build_virtual_memory_map-IsValidMap family p m f =
    let rs = device_regions family in
    let ts = memory_regions family p in
    (
      rs ++ ts,
      refl,
      record {
        fits = omega (arith, length-append rs ts, table_fits family p);
        identity =
            IsIdentity-append rs ts (devices-IsIdentity family)
              (memory_regions-IsIdentity family p);
        seen = omega (
          arith,
          length-append rs ts,
          visible-append rs ts (devices_apart family),
          memory_regions-seen family p m f,
        );
      },
      devices_apart family,
    )
