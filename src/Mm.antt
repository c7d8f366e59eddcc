-- ===== src/Mm.antt =====
-- Memory management: kernel/mm and include/rendezvos/mm.
pub mod Bitmap
pub mod Asid
pub mod Pmm
pub mod Buddy
pub mod Regions
pub mod PageSlice
mod Tests
