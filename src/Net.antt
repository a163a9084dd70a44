-- ===== src/Net.antt =====
-- The parts of src/net that other components use.
pub mod HandleSet
