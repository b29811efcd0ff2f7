-- ===== src/Usb.antt =====
-- The USB Type-C driver, Silicon/Apple/AppleSiliconPkg/Drivers/AppleUsbTypeCBringupDxe.
pub mod Bringup
pub mod Confined
mod Tests
