-- ===== src/Machine.antt =====
-- The memory of a node, and the operations on it.
pub mod State
pub mod Op
pub mod Wait
