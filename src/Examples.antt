-- ===== src/Examples.antt =====
-- The programs in examples/.
pub mod InMemory
