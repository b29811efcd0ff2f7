-- ===== src/Memory/Peim.antt =====
-- MemoryPeim of Silicon/Apple/T810XFamilyPkg/Library/MemoryInitPeiLib, and the parts in which the
-- T602X family's differs. The PCDs are arguments. `cpu_node i` is the node that dt_get finds under
-- the name that AsciiSPrint makes for the index i.
use apple_silicon_platforms.Prelude.{
  ℕ, zero, suc, ◌+◌, ◌*◌, ◌%◌, ◌^◌, Bool, true, ◌&&◌, Option, none, some, List, [], ◌∷◌, ◌++◌, leb,
  ◌==◌, if◌then◌else◌,
}
use apple_silicon_platforms.Platform.Status.{Status, success, invalid_parameter}
use apple_silicon_platforms.Platform.Adt.{Adt}
use apple_silicon_platforms.Display.Validation.{validate_framebuffer_range}
use apple_silicon_platforms.Memory.Hobs.{
  ResourceHob, MemoryPcds, default_attributes, system_memory_top, fd_top, declare_memory,
  split_firmware, memory_peim,
}
use apple_silicon_platforms.Memory.Reserve.{
  HobList, MemoryType, runtime_services_data, boot_services_data, reserved_memory_type,
  build_allocation, reserve_memory_region,
}

-- The PCDs of the T810X family's MemoryPeim
pub record PlatformPcds : Type 0 where
  pub memory : MemoryPcds
  pub frame_buffer_address : ℕ
  pub frame_buffer_size : ℕ
  pub core_count : ℕ
  pub preloaded_ramdisk_base : ℕ
  pub preloaded_ramdisk_max_size : ℕ
  pub low_memory_window_base : ℕ
  pub low_memory_window_size : ℕ
  pub low_memory_window_backing_base : ℕ

-- The attributes that the function's variable holds behind the search for the firmware device:
-- those of the descriptor that holds it, if one does.
unfoldable pub found_attributes : MemoryPcds → List ResourceHob → ℕ
found_attributes p [] = default_attributes
found_attributes p (h ∷ hs) =
    let rest = found_attributes p hs in
    if h.is_system_memory
      && leb h.physical_start p.fd_base
      && leb (fd_top p) ((h.physical_start + h.resource_length) % 2 ^ 64)
    then h.attribute
    else rest

-- The firmware device lies in system memory.
abbrev pub fd_in_memory : MemoryPcds → Bool
fd_in_memory p = leb p.memory_base p.fd_base && leb (fd_top p) (system_memory_top p)

unfoldable pub resource_attributes : MemoryPcds → List ResourceHob → ℕ
resource_attributes p hs =
    if fd_in_memory p then found_attributes p (declare_memory p hs) else default_attributes

-- BuildMemoryAllocationHob for the firmware device, where the search found a descriptor
unfoldable pub allocate_firmware : MemoryType → MemoryPcds → HobList → HobList
allocate_firmware type p l =
    if fd_in_memory p
    then elim (split_firmware p (declare_memory p l.resources)) [
      | none ↦ l
      | some _ ↦ build_allocation p.fd_base p.fd_size type l
    ]
    else l

-- MemoryPeim up to the allocation of the firmware device
unfoldable pub declare_resources : MemoryType → MemoryPcds → HobList → HobList
declare_resources type p l = record (allocate_firmware type p l) {
  resources = memory_peim p l.resources;
}

-- The region of a property `cpm-impl-reg`, whose size is passed on as 32 bits; none without its
-- four words
unfoldable pub carveout_region : Option (List ℕ) → Option (ℕ × ℕ)
carveout_region (some (w0 ∷ w1 ∷ w2 ∷ w3 ∷ _)) =
    some ((w1 * 2 ^ 32 + w0) % 2 ^ 64, (w3 * 2 ^ 32 + w2) % 2 ^ 32)
carveout_region _ = none

-- The property of a node that may be absent
unfoldable pub carveout : Adt → Option ℕ → Option (ℕ × ℕ)
carveout adt none = none
carveout adt (some node) = carveout_region (adt.words node "cpm-impl-reg")

unfoldable pub reserve_carveout : Option (ℕ × ℕ) → HobList → HobList
reserve_carveout none l = l
reserve_carveout (some region) l = reserve_memory_region region.0 region.1 l

-- The loop over the cores, with `rounds` to go from core `i` on
unfoldable pub reserve_carveouts : Adt → (ℕ → Option ℕ) → ℕ → ℕ → HobList → HobList
reserve_carveouts adt cpu_node zero i l = l
reserve_carveouts adt cpu_node (suc rounds) i l =
    reserve_carveouts adt cpu_node rounds (i + 1) (reserve_carveout (carveout adt (cpu_node i)) l)

-- The T602X family's loop, where a core without a node or without its property is a read through
-- NULL: none
unfoldable pub reserve_carveouts_t602x : Adt → (ℕ → Option ℕ) → ℕ → ℕ → HobList → Option HobList
reserve_carveouts_t602x adt cpu_node zero i l = some l
reserve_carveouts_t602x adt cpu_node (suc rounds) i l = elim (carveout adt (cpu_node i)) [
  | none ↦ none
  | some region ↦
      reserve_carveouts_t602x adt cpu_node rounds (i + 1)
        (reserve_memory_region region.0 region.1 l)
]

-- The window of a preloaded RAM disk
unfoldable pub reserve_ramdisk : PlatformPcds → HobList → HobList
reserve_ramdisk p l =
    if p.preloaded_ramdisk_base == 0
    then l
    else if p.preloaded_ramdisk_max_size == 0
    then l
    else reserve_memory_region p.preloaded_ramdisk_base p.preloaded_ramdisk_max_size l

-- BuildResourceDescriptorHob for system memory
abbrev pub build_system_memory : ℕ → ℕ → ℕ → HobList → HobList
build_system_memory attribute base size l = record l {
  resources =
      l.resources
      ++ (record {
        is_system_memory = true;
        attribute = attribute;
        physical_start = base;
        resource_length = size;
      }
          ∷ []);
}

-- The low DRAM window, whose backing store is taken out of the map
unfoldable pub declare_low_memory : PlatformPcds → ℕ → HobList → HobList
declare_low_memory p attribute l =
    if p.low_memory_window_size == 0
    then l
    else build_system_memory attribute p.low_memory_window_base p.low_memory_window_size
        (reserve_memory_region p.low_memory_window_backing_base p.low_memory_window_size l)

-- The framebuffer: reserved, and reported as an allocation
unfoldable pub reserve_frame_buffer : PlatformPcds → HobList → HobList
reserve_frame_buffer p l =
    build_allocation p.frame_buffer_address p.frame_buffer_size reserved_memory_type
      (reserve_memory_region p.frame_buffer_address (p.frame_buffer_size % 2 ^ 32) l)

-- MemoryPeim behind the check of the framebuffer
unfoldable pub reserve_regions : Adt → (ℕ → Option ℕ) → PlatformPcds → ℕ → HobList → HobList
reserve_regions adt cpu_node p attribute l =
    declare_low_memory p attribute
      (reserve_ramdisk p (reserve_carveouts adt cpu_node p.core_count 0 (reserve_frame_buffer p l)))

-- MemoryPeim of the T810X family
unfoldable pub memory_peim_t810x : Adt → (ℕ → Option ℕ) → PlatformPcds → HobList → Status × HobList
memory_peim_t810x adt cpu_node p l =
    let declared = declare_resources boot_services_data p.memory l in
    if validate_framebuffer_range p.frame_buffer_address p.frame_buffer_size p.memory.memory_base
      p.memory.memory_size
    then (
      success,
      reserve_regions adt cpu_node p (resource_attributes p.memory l.resources) declared,
    )
    else (invalid_parameter, declared)

-- MemoryPeim of the T602X family; none is a read through NULL
unfoldable pub memory_peim_t602x :
    Adt → (ℕ → Option ℕ) → MemoryPcds → ℕ → HobList → Option (Status × HobList)
memory_peim_t602x adt cpu_node p core_count l =
    let declared = declare_resources runtime_services_data p l in
    elim (reserve_carveouts_t602x adt cpu_node core_count 0 declared) [
      | none ↦ none
      | some l' ↦ some (success, l')
    ]
