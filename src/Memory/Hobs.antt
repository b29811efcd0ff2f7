-- ===== src/Memory/Hobs.antt =====
-- MemoryPeim on the list of resource descriptor HOBs; a new HOB goes to the end of the list. The
-- PCDs are arguments.
use apple_silicon_platforms.Prelude.{
  ℕ, ◌+◌, ◌-◌, ◌%◌, ◌^◌, Bool, true, false, ◌&&◌, Option, none, some, List, [], ◌∷◌, ◌++◌, leb, ltb,
  ◌==◌, if◌then◌else◌,
}

-- EFI_HOB_RESOURCE_DESCRIPTOR; the flag says that its type is EFI_RESOURCE_SYSTEM_MEMORY.
pub record ResourceHob : Type 0 where
  pub is_system_memory : Bool
  pub attribute : ℕ
  pub physical_start : ℕ
  pub resource_length : ℕ

-- PcdSystemMemoryBase, PcdSystemMemorySize, PcdFdBaseAddress, PcdFdSize
pub record MemoryPcds : Type 0 where
  pub memory_base : ℕ
  pub memory_size : ℕ
  pub fd_base : ℕ
  pub fd_size : ℕ

-- EFI_RESOURCE_ATTRIBUTE_PRESENT to EFI_RESOURCE_ATTRIBUTE_TESTED, as MemoryPeim combines them
abbrev pub default_attributes : ℕ
default_attributes = 0x1 + 0x2 + 0x4 + 0x800 + 0x1000 + 0x2000

-- SystemMemoryTop and FdTop
abbrev pub system_memory_top : MemoryPcds → ℕ
system_memory_top p = (p.memory_base + p.memory_size) % 2 ^ 64

abbrev pub fd_top : MemoryPcds → ℕ
fd_top p = (p.fd_base + p.fd_size) % 2 ^ 64

abbrev pub resource_top : ResourceHob → ℕ
resource_top h = (h.physical_start + h.resource_length) % 2 ^ 64

-- The first search: the resource for the main system memory has been declared.
unfoldable pub declares_memory : MemoryPcds → List ResourceHob → Bool
declares_memory p [] = false
declares_memory p (h ∷ hs) =
    let rest = declares_memory p hs in
    if h.is_system_memory
      && leb h.physical_start p.memory_base
      && leb (resource_top h) (system_memory_top p)
    then true
    else rest

unfoldable pub declare_memory : MemoryPcds → List ResourceHob → List ResourceHob
declare_memory p hs =
    if declares_memory p hs
    then hs
    else hs
      ++ (record {
        is_system_memory = true;
        attribute = default_attributes;
        physical_start = p.memory_base;
        resource_length = p.memory_size;
      }
          ∷ [])

-- The second search's condition
unfoldable pub holds_firmware : MemoryPcds → ResourceHob → Bool
holds_firmware p h =
    h.is_system_memory && leb h.physical_start p.fd_base && leb (fd_top p) (resource_top h)

-- The System Memory HOB for the firmware
abbrev pub firmware_hob : MemoryPcds → ResourceHob → ResourceHob
firmware_hob p h = record {
  is_system_memory = true;
  attribute = h.attribute;
  physical_start = p.fd_base;
  resource_length = p.fd_size;
}

-- What becomes of the HOB that holds the firmware, and the HOBs that are built
unfoldable pub split_hob : MemoryPcds → ResourceHob → ResourceHob × List ResourceHob
split_hob p h =
    if p.fd_base == h.physical_start
    then if system_memory_top p == fd_top p then (h, []) else (
      record h {
        physical_start = (h.physical_start + p.fd_size) % 2 ^ 64;
        resource_length = (h.resource_length + 2 ^ 64 - p.fd_size) % 2 ^ 64;
      },
      firmware_hob p h ∷ [],
    )
    else (
      record h { resource_length = (p.fd_base + 2 ^ 64 - h.physical_start) % 2 ^ 64 },
      if ltb (fd_top p) ((h.physical_start + h.resource_length) % 2 ^ 64)
          then firmware_hob p h
            ∷ record {
              is_system_memory = true;
              attribute = h.attribute;
              physical_start = fd_top p;
              resource_length = (resource_top h + 2 ^ 64 - fd_top p) % 2 ^ 64;
            }
            ∷ []
          else firmware_hob p h ∷ [],
    )

-- The second search: the list with the first HOB that holds the firmware changed, and the HOBs that
-- are built; none where no HOB does (ASSERT (Found)).
unfoldable pub split_firmware :
    MemoryPcds → List ResourceHob → Option (List ResourceHob × List ResourceHob)
split_firmware p [] = none
split_firmware p (h ∷ hs) =
    let rest = split_firmware p hs in
    if holds_firmware p h
    then some ((split_hob p h).0 ∷ hs, (split_hob p h).1)
    else elim rest [ none ↦ none | some r ↦ some (h ∷ r.0, r.1) ]

-- The resource descriptors behind MemoryPeim
unfoldable pub append_built :
    List ResourceHob → Option (List ResourceHob × List ResourceHob) → List ResourceHob
append_built hs none = hs
append_built hs (some r) = r.0 ++ r.1

unfoldable pub memory_peim : MemoryPcds → List ResourceHob → List ResourceHob
memory_peim p hs =
    let declared = declare_memory p hs in
    if leb p.memory_base p.fd_base && leb (fd_top p) (system_memory_top p)
    then append_built declared (split_firmware p declared)
    else declared
