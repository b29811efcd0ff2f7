-- ===== src/Acpi/Order.antt =====
-- Which tables the entry point installs, in which order, and that their checksums are right.
use apple_silicon_platforms.Prelude.{ℕ, ◌<◌, ◌≡◌, false, not, List, ◌++◌, length}
use apple_silicon_platforms.Platform.Status.{is_error}
use apple_silicon_platforms.Acpi.Volumes.{
  device_file, soc_file, generic_file, device_family_file, locate_fv_instance_with_device_tables,
  locate_fv_instance_with_soc_tables, locate_fv_instance_with_generic_tables,
  locate_fv_instance_with_device_family_tables,
}
use apple_silicon_platforms.Acpi.Install.{
  AcpiServices, next, install_device_tables, install_soc_tables, install_generic_tables,
  install_device_family_tables, add_ecam, acpi_platform_entry_point,
}
use apple_silicon_platforms.Acpi.Blocks.{
  Tables, Accepts, Stored, install_block-Installs, Installs-and_then,
}

-- AcpiPlatformEntryPoint, where the table protocol is there and accepts every table, each of the
-- four storage files is in a volume, and the fuel exceeds the number of sections of each: it asks
-- to be unloaded, having installed one table for each section, those of the device's file first,
-- then the SoC's, the generic file's and the device family's, in the order of the sections. Each
-- is as long as its header says, has its section's bytes but for the checksum, and adds up to 0
-- modulo 256. The ECAM's space is uncached exactly if it was added, and no ASSERT has failed.
pub acpi_platform_entry_point_lem :
    (s : AcpiServices) (fuel : ℕ) (device soc generic family : List (List ℕ))
    → Accepts s
    → is_error s.locate_acpi_table ≡ false
    → is_error s.handles.status ≡ false
    → Stored s.handles device_file device
    → Stored s.handles soc_file soc
    → Stored s.handles generic_file generic
    → Stored s.handles device_family_file family
    → length device < fuel
    → length soc < fuel
    → length generic < fuel
    → length family < fuel
    → (ts : List (List ℕ)) × Tables (((device ++ soc) ++ generic) ++ family) ts
      × (acpi_platform_entry_point s fuel ≡ (
        next,
        record { ecam_uncached = not (is_error s.add_memory_space); tables = ts; asserted = false },
      ))
unfolding acpi_platform_entry_point add_ecam install_device_tables install_soc_tables
    install_generic_tables install_device_family_tables locate_fv_instance_with_device_tables
    locate_fv_instance_with_soc_tables locate_fv_instance_with_generic_tables
    locate_fv_instance_with_device_family_tables
acpi_platform_entry_point_lem s fuel device soc generic family accepts there found d c g f nd nc ng
      nf =
    let block = install_block-Installs s accepts found fuel in
    let st = add_ecam s in
    let one = block device_file device st d nd in
    let two =
      Installs-and_then s accepts found fuel _ (λ st'. install_soc_tables s fuel st') st device soc
        one (λ st'. block soc_file soc st' c nc) in
    let three =
      Installs-and_then s accepts found fuel _ (λ st'. install_generic_tables s fuel st') st
        (device ++ soc) generic two (λ st'. block generic_file generic st' g ng) in
    let four =
      Installs-and_then s accepts found fuel _ (λ st'. install_device_family_tables s fuel st') st
        ((device ++ soc) ++ generic) family three
        (λ st'. block device_family_file family st' f nf) in
    (four.installed, four.of_sections, rw there four.outcome)
