-- ===== src/Ramdisk.antt =====
-- The RAM disk driver, Silicon/Apple/AppleSiliconPkg/Drivers/BootRamdiskHelperDxe.
pub mod Helper
pub mod Window
mod Tests
