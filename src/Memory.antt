-- ===== src/Memory.antt =====
-- The memory initialisation, Silicon/Apple/T600XFamilyPkg/Library/MemoryInitPeiLib and the copies
-- for the T602X and T810X families: how MemoryPeim splits the descriptors of system memory around
-- the firmware device, which regions it reserves, and the map that it gives to the MMU.
pub mod Hobs
pub mod Partition
pub mod Reserve
pub mod Peim
pub mod Safety
pub mod Shrinking
pub mod FrameBuffer
pub mod Maps
pub mod MapLaws
mod Tests
