-- ===== src/Buffer.antt =====
-- The chained byte buffer of src/reactor/buffer.h and src/reactor/buffer.cpp.
pub mod Chain
pub mod Store
pub mod Write
pub mod Read
pub mod Packed
pub mod Iter
pub mod Copy
pub mod Queue
pub mod Tests
