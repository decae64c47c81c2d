-- ===== src/Giop/Demarshal.antt =====
-- src/orb/GIOP/giop-recv-buffer.c: the decoders of each message's header, and the table of them.
mod Context
mod Messages
pub mod Safety
unfoldable pub use Context.*
unfoldable pub use Messages.*
