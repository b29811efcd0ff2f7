-- ===== src/Smbios.antt =====
-- The SMBIOS driver, Silicon/Apple/AppleSiliconPkg/Drivers/SmbiosInfoDxe/SmbiosInfoDxe.c.
pub mod Record
pub mod Encode
pub mod RoundTrip
pub mod Tables
pub mod Driver
pub mod Added
mod Tests
