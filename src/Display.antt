-- ===== src/Display.antt =====
-- The display of Silicon/Apple/AppleSiliconPkg: the checks of
-- Include/Library/VirtualDisplayValidation.h and the frame buffer driver Drivers/SimpleFbDxe.
pub mod Validation
pub mod SimpleFb
pub mod Geometry
mod Tests
