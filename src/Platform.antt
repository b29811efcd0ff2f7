-- ===== src/Platform.antt =====
-- What the drivers stand on: status codes, the machine they run on, the Apple device tree, and the
-- macros of Include/Library/ConvenienceMacros.h.
pub mod Status
pub mod Io
pub mod Adt
pub mod Macros
