-- ===== src/Firmware.antt =====
-- The upload of the ASMedia XHCI controller's firmware,
-- Silicon/Apple/AppleSiliconPkg/Drivers/AppleBootTimeEmbeddedFirmwareHelperDxe, over the PCI I/O
-- protocol of the controller.
pub mod Registers
pub mod Mailbox
pub mod Upload
pub mod Words
pub mod Transfer
pub mod Binding
mod Tests
