-- ===== src/Pci.antt =====
-- Drivers/AppleSiliconPciPlatformDxe of Silicon/Apple/AppleSiliconPkg: it brings the PCIe root
-- ports up, one after the other, over the GPIO protocol for their reset lines.
pub mod Regs
pub mod Port
pub mod Polling
pub mod Stages
pub mod Handshake
mod Tests
