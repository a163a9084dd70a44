-- ===== src/Thread.antt =====
-- The threads under src/thread.
pub mod Pool
