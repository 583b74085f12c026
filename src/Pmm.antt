-- ===== src/Pmm.antt =====
-- library/pmm: the physical memory manager.
pub mod Region
pub mod Zone
pub mod Allocator
pub mod Setup
