-- ===== src/Giop.antt =====
-- src/orb/GIOP: the messages of the protocol, sent and received.
pub mod Wire
pub mod MsgType
pub mod Message
pub mod Reader
pub mod Demarshal
pub mod Fragments
pub mod Queue
pub mod Input
pub mod SendBuffer
pub mod RoundTrip
mod Tests
