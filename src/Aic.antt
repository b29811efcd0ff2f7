-- ===== src/Aic.antt =====
-- The Apple interrupt controller: Drivers/AppleAicDxe and Include/Library/AppleAicLib.h of
-- Silicon/Apple/AppleSiliconPkg.
pub mod Regs
pub mod Controller
pub mod Driver
pub mod Service
mod Tests
