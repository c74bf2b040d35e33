-- ===== src/Str.antt =====
-- The string pool and the interner: include/fpag/str and src/str.
mod Tests
pub mod Memory
pub mod Pool
pub mod Table
pub mod Interner
pub mod Threads
