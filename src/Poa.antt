-- ===== src/Poa.antt =====
-- src/orb/poa: the adapter of a server's objects, and the managers that switch it.
pub mod Adapter
pub mod Deactivation
pub mod Manager
pub mod Objects
mod Tests
