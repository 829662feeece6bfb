-- ===== src/Cla.antt =====
-- The convergence layer agents under core/dtn7/src/cla that this repository implements itself.
pub mod Tcp
pub mod Mtcp
