-- ===== src/Ramdisk/Helper.antt =====
-- BootRamdiskHelperDxe.c. The header in memory, the firmware volumes, the pool and the RAM disk
-- protocol are parameters; an ASSERT that fails goes on, as in a build without asserts.
use apple_silicon_platforms.Prelude.{
  ℕ, ◌+◌, ◌-◌, ◌%◌, ◌^◌, Bool, true, ◌||◌, ◌&&◌, Option, none, some, List, [], ◌∷◌, ◌==◌, ltb,
  if◌then◌else◌,
}
use apple_silicon_platforms.Platform.Status.{Status, unsupported, not_found, error, is_error}

-- EFI_VOLUME_CORRUPTED
abbrev pub volume_corrupted : Status
volume_corrupted = error 10

-- PRELOADED_RAMDISK_MAGIC, "ASIRAMDK"
abbrev pub preloaded_ramdisk_magic : List ℕ
preloaded_ramdisk_magic = 0x41 ∷ 0x53 ∷ 0x49 ∷ 0x52 ∷ 0x41 ∷ 0x4D ∷ 0x44 ∷ 0x4B ∷ []

abbrev pub preloaded_ramdisk_payload_offset : ℕ
preloaded_ramdisk_payload_offset = 0x1000

-- PRELOADED_RAMDISK_HEADER
pub record PreloadedRamdiskHeader : Type 0 where
  pub magic : List ℕ
  pub size : ℕ

pub record RamdiskFirmware : Type 0 where
  -- PcdInitializeRamdisk, PcdPreloadedRamdiskBase and PcdPreloadedRamdiskMaxSize
  pub initialize_ramdisk : Bool
  pub preloaded_ramdisk_base : ℕ
  pub preloaded_ramdisk_max_size : ℕ
  -- what is in memory at an address
  pub header_at : ℕ → PreloadedRamdiskHeader
  -- GetSectionFromAnyFv: the address and the size; none is an error
  pub embedded_ramdisk : Option (ℕ × ℕ)
  -- the address of AllocateCopyPool, which is 0 if it fails
  pub copy_pool : ℕ → ℕ
  -- LocateProtocol, and Register of an address and a size
  pub locate_ram_disk : Status
  pub register : ℕ → ℕ → Status

-- CompareMem gives 0 for buffers of the same length.
unfoldable pub same_bytes : List ℕ → List ℕ → Bool
same_bytes [] bs = true
same_bytes (a ∷ rest) [] = true
same_bytes (a ∷ rest) (b ∷ bs) = a == b && same_bytes rest bs

module _ (w : RamdiskFirmware) where
  -- Register of the RAM disk protocol, if it is there: the status, and the range handed over
  unfoldable pub register_ramdisk : ℕ → ℕ → Status × Option (ℕ × ℕ)
  register_ramdisk address size =
      if is_error w.locate_ram_disk
      then (w.locate_ram_disk, none)
      else (w.register address size, some (address, size))

  -- The preloaded image, behind its magic. The limit is a 32-bit difference.
  unfoldable pub register_preloaded : PreloadedRamdiskHeader → Status × Option (ℕ × ℕ)
  register_preloaded h =
      if h.size == 0
        || ltb
            ((w.preloaded_ramdisk_max_size % 2 ^ 32 + (2 ^ 32 - preloaded_ramdisk_payload_offset))
              % 2 ^ 32)
            h.size
      then (volume_corrupted, none)
      else register_ramdisk ((w.preloaded_ramdisk_base + preloaded_ramdisk_payload_offset) % 2 ^ 64)
          h.size

  -- The image embedded in a firmware volume
  unfoldable pub register_embedded : Status × Option (ℕ × ℕ)
  register_embedded = elim w.embedded_ramdisk [
    | none ↦ (not_found, none)
    | some (address, size) ↦ register_ramdisk (w.copy_pool size) size
  ]

  -- BootRamdiskHelperDxeInitialize
  unfoldable pub boot_ramdisk_helper_initialize : Status × Option (ℕ × ℕ)
  boot_ramdisk_helper_initialize =
      if w.initialize_ramdisk
      then if w.preloaded_ramdisk_base == 0
        then register_embedded
        else if same_bytes (w.header_at w.preloaded_ramdisk_base).magic preloaded_ramdisk_magic
        then register_preloaded (w.header_at w.preloaded_ramdisk_base)
        else register_embedded
      else (unsupported, none)
