-- ===== src/Common.antt =====
-- library/common: alignment, memory, text and the dynamic array.
pub mod Align
pub mod Memory
pub mod Text
