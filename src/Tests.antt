-- ===== src/Tests.antt =====
-- Runs on concrete inputs, and the theorems at inputs that meet their hypotheses.
pub mod Common
pub mod Pmm
pub mod Setup
pub mod Screen
pub mod Arrays
pub mod Keys
pub mod Files
pub mod Paging
pub mod Threads
