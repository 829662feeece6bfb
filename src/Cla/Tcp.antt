-- ===== src/Cla/Tcp.antt =====
-- The TCP convergence layer, core/dtn7/src/cla/tcp: messages, their bytes, and sessions.
pub mod Proto
pub mod Wire
pub mod Ends
pub mod Net
pub mod Session
pub mod Sending
pub mod Receiving
pub mod Running
pub mod Connection
