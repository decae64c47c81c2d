-- ===== src/Giop/SendBuffer.antt =====
-- src/orb/GIOP/giop-send-buffer.c: a message under construction is a vector of memory areas (`iovecs`).
-- Small pieces are copied into chunks that the buffer owns; larger ones stay where the caller
-- has them.
pub mod Memory
pub mod Requests
pub mod Vector
pub mod Payload
pub mod Append
pub mod Sent
pub mod Capacity
pub use Memory.*
