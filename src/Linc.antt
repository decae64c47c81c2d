-- ===== src/Linc.antt =====
-- linc2: connections over sockets.
pub mod Connection
pub mod Writes
pub mod Stream
pub mod Drain
pub mod Faults
mod Tests
