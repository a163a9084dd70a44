-- ===== src/Util.antt =====
-- The utilities under src/util.
pub mod Kmp
pub mod StringPiece
pub mod Date
