-- ===== src/Acpi/Volumes.antt =====
-- The search of AcpiPlatform.c for a firmware volume with a storage file: four functions that
-- differ in the file. A firmware volume is another driver's protocol: its answers are the record
-- FirmwareVolume. HandleProtocol does not fail on a handle that LocateHandleBuffer has just given.
use apple_silicon_platforms.Prelude.{
  ℕ, ◌≡◌, true, false, Option, none, some, List, [], ◌∷◌, ◌++◌, if◌then◌else◌, All,
}
use apple_silicon_platforms.Platform.Status.{Status, is_error}

-- PcdDeviceAcpiTableStorageFile, PcdSocAcpiTableStorageFile, PcdGenericAcpiTableStorageFile and
-- PcdDeviceFamilyAcpiTableStorageFile
pub data StorageFile : Type 0 where
  device_file soc_file generic_file device_family_file : StorageFile

-- EFI_FIRMWARE_VOLUME2_PROTOCOL: ReadFile's status, and the raw section of an index, none for an
-- error
pub record FirmwareVolume : Type 0 where
  pub read_file : StorageFile → Status
  pub read_section : StorageFile → ℕ → Option (List ℕ)

-- LocateHandleBuffer by the firmware volume protocol: its status and the volumes
pub record VolumeHandles : Type 0 where
  pub status : Status
  pub volumes : List FirmwareVolume

-- The loop over the handles: the last status, and the instance if one was stored. Status ==
-- EFI_SUCCESS is the absence of an error: no warning is among the statuses.
unfoldable pub search_volumes :
    StorageFile → Status → List FirmwareVolume → Status × Option FirmwareVolume
search_volumes file status [] = (status, none)
search_volumes file status (v ∷ vs) =
    let rest = search_volumes file (v.read_file file) vs in
    if is_error (v.read_file file) then rest else (v.read_file file, some v)

unfoldable pub locate_fv_instance : StorageFile → VolumeHandles → Status × Option FirmwareVolume
locate_fv_instance file handles =
    if is_error handles.status
    then (handles.status, none)
    else search_volumes file handles.status handles.volumes

-- LocateFvInstanceWithDeviceTables
unfoldable pub locate_fv_instance_with_device_tables :
    VolumeHandles → Status × Option FirmwareVolume
locate_fv_instance_with_device_tables = locate_fv_instance device_file

-- LocateFvInstanceWithDeviceFamilyTables
unfoldable pub locate_fv_instance_with_device_family_tables :
    VolumeHandles → Status × Option FirmwareVolume
locate_fv_instance_with_device_family_tables = locate_fv_instance device_family_file

-- LocateFvInstanceWithSocTables
unfoldable pub locate_fv_instance_with_soc_tables : VolumeHandles → Status × Option FirmwareVolume
locate_fv_instance_with_soc_tables = locate_fv_instance soc_file

-- LocateFvInstanceWithGenericTables
unfoldable pub locate_fv_instance_with_generic_tables :
    VolumeHandles → Status × Option FirmwareVolume
locate_fv_instance_with_generic_tables = locate_fv_instance generic_file

-- ReadFile fails for the file.
abbrev pub Lacks : StorageFile → FirmwareVolume → Type 0
Lacks file v = is_error (v.read_file file) ≡ true

-- A volume that has the file, behind volumes that have not, is the one that is found.
pub search_volumes-first :
    (file : StorageFile) (status : Status) (before after : List FirmwareVolume) (v : FirmwareVolume)
    → All (Lacks file) before
    → is_error (v.read_file file) ≡ false
    → search_volumes file status (before ++ (v ∷ after)) ≡ (v.read_file file, some v)
unfolding search_volumes
search_volumes-first file status [] after v lacks has = rw has
search_volumes-first file status (u ∷ before) after v lacks has =
    rw lacks.0 (search_volumes-first file (u.read_file file) before after v lacks.1 has)

-- Where every volume lacks the file, and there is a volume, the search ends with an error.
pub search_volumes-is_error :
    (file : StorageFile) (status : Status) (u : FirmwareVolume) (vs : List FirmwareVolume)
    → All (Lacks file) (u ∷ vs)
    → is_error (search_volumes file status (u ∷ vs)).0 ≡ true
unfolding search_volumes
search_volumes-is_error file status u [] lacks = rw lacks.0 lacks.0
search_volumes-is_error file status u (v ∷ vs) lacks =
    rw lacks.0 (search_volumes-is_error file (u.read_file file) v vs lacks.1)
