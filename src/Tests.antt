-- ===== src/Tests.antt =====
-- Concrete data and runs of the definitions: one module for the data, one for each group of components.
pub mod Sample
pub mod Wire
mod Storage
mod Peering
mod Agents
pub mod Handling
mod Forwarding
mod Tcp
mod Sled
pub mod Policy
mod Enforcement
mod Mtcp
