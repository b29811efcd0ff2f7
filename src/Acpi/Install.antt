-- ===== src/Acpi/Install.antt =====
-- AcpiPlatformEntryPoint: the installation of the tables. The ACPI table protocol and the GCD are
-- parameters. The dump of the configuration table at the end prints and changes nothing: it is left
-- out.
use apple_silicon_platforms.Prelude.{
  ℕ, zero, suc, ◌+◌, Bool, true, false, not, leb, length, Option, none, some, List, [], ◌∷◌, ◌++◌,
  take, if◌then◌else◌,
}
use apple_silicon_platforms.Platform.Status.{Status, is_error}
use apple_silicon_platforms.Acpi.Checksum.{ChecksumLib, header_length, acpi_platform_checksum}
use apple_silicon_platforms.Acpi.Volumes.{
  StorageFile, device_file, soc_file, generic_file, device_family_file, FirmwareVolume,
  VolumeHandles, locate_fv_instance_with_device_tables, locate_fv_instance_with_soc_tables,
  locate_fv_instance_with_generic_tables, locate_fv_instance_with_device_family_tables,
}

-- The services that the entry point calls: AddMemorySpace for the ECAM, LocateProtocol for the ACPI
-- table protocol, and InstallAcpiTable, whose answer may depend on the tables installed so far.
pub record AcpiServices : Type 0 where
  pub add_memory_space : Status
  pub locate_acpi_table : Status
  pub handles : VolumeHandles
  pub install_acpi_table : List (List ℕ) → List ℕ → Status
  pub checksum_lib : ChecksumLib

-- What the entry point has done: the attributes set on the ECAM's space, the tables installed, oldest
-- first, and whether an ASSERT has failed. A failed ASSERT does not stop the model.
pub record AcpiState : Type 0 where
  pub ecam_uncached : Bool
  pub tables : List (List ℕ)
  pub asserted : Bool

-- ASSERT
abbrev pub assert : Bool → AcpiState → AcpiState
assert ok st = if ok then st else record st { asserted = true }

-- How a part of the entry point ends: the next part is run, or the entry point returns EFI_ABORTED,
-- or there is an access past a buffer or through a pointer that was not set, or the fuel ran out.
pub data Exit : Type 0 where
  next aborted faulted out_of_fuel : Exit

-- The next part of the entry point, if the part before came to its end.
abbrev pub and_then : Exit × AcpiState → (AcpiState → Exit × AcpiState) → Exit × AcpiState
and_then (next, st) f = f st
and_then (other, st) f = (other, st)

-- The body of the loop: the exit and the state behind the installation of one section.
unfoldable pub install_buffer : AcpiServices → Option (List ℕ) → ℕ → AcpiState → Exit × AcpiState
install_buffer s none size st = (faulted, st)
install_buffer s (some buffer) size st =
    if is_error (s.install_acpi_table st.tables (take size buffer))
    then (aborted, st)
    else (next, record st { tables = st.tables ++ (take size buffer ∷ []) })

unfoldable pub install_section : AcpiServices → List ℕ → Option ℕ → AcpiState → Exit × AcpiState
install_section s section none st = (faulted, st)
install_section s section (some size) st =
    install_buffer s (acpi_platform_checksum s.checksum_lib section size) size
      (assert (leb size (length section)) st)

-- The loop that reads the sections of a storage file, from an instance on
unfoldable pub install_sections :
    AcpiServices → FirmwareVolume → StorageFile → ℕ → ℕ → AcpiState → Exit × AcpiState
install_sections s v file zero instance_index st = (out_of_fuel, st)
install_sections s v file (suc fuel) instance_index st = elim (v.read_section file instance_index) [
  | none ↦ (next, st)
  | some section ↦
      and_then (install_section s section (header_length section) st)
        (λ st'. install_sections s v file fuel (instance_index + 1) st')
]

-- A block of the entry point behind its search, from the search's answer on
unfoldable pub install_block :
    AcpiServices → ℕ → StorageFile → Status × Option FirmwareVolume → AcpiState → Exit × AcpiState
install_block s fuel file located st =
    if is_error located.0
    then (aborted, assert false st)
    else elim located.1 [ none ↦ (faulted, st) | some v ↦ install_sections s v file fuel 0 st ]

-- The four blocks of the entry point
unfoldable pub install_device_tables : AcpiServices → ℕ → AcpiState → Exit × AcpiState
install_device_tables s fuel st =
    install_block s fuel device_file (locate_fv_instance_with_device_tables s.handles) st

unfoldable pub install_soc_tables : AcpiServices → ℕ → AcpiState → Exit × AcpiState
install_soc_tables s fuel st =
    install_block s fuel soc_file (locate_fv_instance_with_soc_tables s.handles) st

unfoldable pub install_generic_tables : AcpiServices → ℕ → AcpiState → Exit × AcpiState
install_generic_tables s fuel st =
    install_block s fuel generic_file (locate_fv_instance_with_generic_tables s.handles) st

unfoldable pub install_device_family_tables : AcpiServices → ℕ → AcpiState → Exit × AcpiState
install_device_family_tables s fuel st =
    install_block s fuel device_family_file (locate_fv_instance_with_device_family_tables s.handles)
      st

-- The registration of the ECAM, whose attributes are set if it was added
unfoldable pub add_ecam : AcpiServices → AcpiState
add_ecam s = record {
  ecam_uncached = not (is_error s.add_memory_space);
  tables = [];
  asserted = false;
}

-- AcpiPlatformEntryPoint; `next` is EFI_REQUEST_UNLOAD_IMAGE
unfoldable pub acpi_platform_entry_point : AcpiServices → ℕ → Exit × AcpiState
acpi_platform_entry_point s fuel =
    if is_error s.locate_acpi_table
    then (aborted, assert false (add_ecam s))
    else and_then
        (and_then
          (and_then (install_device_tables s fuel (add_ecam s))
            (λ st. install_soc_tables s fuel st))
          (λ st. install_generic_tables s fuel st))
        (λ st. install_device_family_tables s fuel st)
