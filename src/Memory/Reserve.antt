-- ===== src/Memory/Reserve.antt =====
-- ReserveMemoryRegion of Silicon/Apple/T810XFamilyPkg/Library/MemoryInitPeiLib and of the T602X
-- family's copy, on the hand-off block list.
use apple_silicon_platforms.Prelude.{
  ℕ, ◌+◌, ◌-◌, ◌%◌, ◌^◌, Bool, true, false, ◌&&◌, ◌||◌, Option, none, some, List, [], ◌∷◌, ◌++◌,
  leb, ◌==◌, if◌then◌else◌,
}
use apple_silicon_platforms.Memory.Hobs.{ResourceHob, resource_top}

-- EFI_MEMORY_TYPE of the allocations that are reported
pub data MemoryType : Type 0 where
  runtime_services_data boot_services_data reserved_memory_type : MemoryType

-- EFI_HOB_MEMORY_ALLOCATION
pub record AllocationHob : Type 0 where
  pub allocation_base : ℕ
  pub allocation_length : ℕ
  pub memory_type : MemoryType

-- The hand-off block list. Its first block is the hand-off table, which ReserveMemoryRegion looks
-- at as if it were a resource descriptor: `handoff` is what its bytes read as under that struct.
pub record HobList : Type 0 where
  pub handoff : ResourceHob
  pub resources : List ResourceHob
  pub allocations : List AllocationHob

-- BuildMemoryAllocationHob
abbrev pub build_allocation : ℕ → ℕ → MemoryType → HobList → HobList
build_allocation base size type l = record l {
  allocations =
      l.allocations
      ++ (record { allocation_base = base; allocation_length = size; memory_type = type } ∷ []);
}

-- ReservedRegionTop
abbrev pub region_top : ℕ → ℕ → ℕ
region_top base size = (base + size) % 2 ^ 64

-- The condition of the search
unfoldable pub covers : ℕ → ℕ → ResourceHob → Bool
covers base size h =
    h.is_system_memory && leb h.physical_start base && leb (region_top base size) (resource_top h)

-- The resource that is built for the region itself, of type EFI_RESOURCE_MEMORY_RESERVED
abbrev pub reserved_hob : ℕ → ℕ → ResourceHob
reserved_hob base size = record {
  is_system_memory = false;
  attribute = 0;
  physical_start = base;
  resource_length = size;
}

-- What becomes of the descriptor that covers the region, and the descriptors that are built
unfoldable pub punch_hole : ℕ → ℕ → ResourceHob → ResourceHob × List ResourceHob
punch_hole base size h =
    if base == h.physical_start
    then (
      record h {
        physical_start = (h.physical_start + size) % 2 ^ 64;
        resource_length = (h.resource_length + 2 ^ 64 - size) % 2 ^ 64;
      },
      reserved_hob base size ∷ [],
    )
    else if resource_top h == region_top base size
    then (
      record h { resource_length = (h.resource_length + 2 ^ 64 - size) % 2 ^ 64 },
      reserved_hob base size ∷ [],
    )
    else (
      record h { resource_length = (base + 2 ^ 64 - h.physical_start) % 2 ^ 64 },
      record {
        is_system_memory = true;
        attribute = h.attribute;
        physical_start = region_top base size;
        resource_length = (resource_top h + 2 ^ 64 - region_top base size) % 2 ^ 64;
      }
          ∷ reserved_hob base size
          ∷ [],
    )

-- The search from the second block on: the list with the first covering descriptor changed, and
-- the descriptors that are built; none where no descriptor covers the region.
unfoldable pub reserve_in : ℕ → ℕ → List ResourceHob → Option (List ResourceHob × List ResourceHob)
reserve_in base size [] = none
reserve_in base size (h ∷ hs) =
    let rest = reserve_in base size hs in
    if covers base size h
    then some ((punch_hole base size h).0 ∷ hs, (punch_hole base size h).1)
    else elim rest [ none ↦ none | some r ↦ some (h ∷ r.0, r.1) ]

-- The list behind the search
unfoldable pub store_found : HobList → Option (List ResourceHob × List ResourceHob) → HobList
store_found l none = l
store_found l (some r) = record l { resources = r.0 ++ r.1 }

-- ReserveMemoryRegion (base, size) with a size of 32 bits; the loop starts at the hand-off table
unfoldable pub reserve_memory_region : ℕ → ℕ → HobList → HobList
reserve_memory_region base size l =
    if covers base size l.handoff
    then record l {
      handoff = (punch_hole base size l.handoff).0;
      resources = l.resources ++ (punch_hole base size l.handoff).1;
    }
    else store_found l (reserve_in base size l.resources)

-- Some descriptor of the list covers the region.
unfoldable pub any_covers : ℕ → ℕ → List ResourceHob → Bool
any_covers base size [] = false
any_covers base size (h ∷ hs) = covers base size h || any_covers base size hs
