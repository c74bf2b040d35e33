-- ===== src/Dwarf.antt =====
-- The DWARF reader, src/debug/dwarf.
mod Tests
pub mod Cursor
pub mod Constants
pub mod Forms
pub mod Ranges
pub mod LineHeader
pub mod Line
pub mod Unit
pub mod Module
