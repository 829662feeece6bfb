-- ===== src/Processing.antt =====
-- core/dtn7/src/core/processing.rs. Each function runs to its end before another starts; the calls of
-- `forward` that `dispatch` spawns are listed in the node and run later.
pub mod Reports
pub mod Delivery
pub mod Receive
pub mod Forward
pub mod Janitor
pub mod Stable
pub mod History
