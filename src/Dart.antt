-- ===== src/Dart.antt =====
-- Drivers/AppleDartIoMmuDxe of Silicon/Apple/AppleSiliconPkg, with Include/Drivers/AppleDartIoMmuDxe.h:
-- the IOMMUs of the USB controllers are put into bypass. Each controller has two. A loop that waits
-- for a TLB flush gets fuel for its reads; it hangs without enough.
pub mod Regs
pub mod Setup
pub mod Streams
pub mod Bypass
mod Tests
