-- ===== src/Acpi.antt =====
-- The ACPI platform driver, Silicon/Apple/AppleSiliconPkg/Drivers/AcpiPlatformDxe/AcpiPlatform.c:
-- the search for the firmware volume that has a storage file, the checksums, and the installation
-- of the tables of four files.
pub mod Checksum
pub mod Volumes
pub mod Install
pub mod Blocks
pub mod Order
mod Tests
