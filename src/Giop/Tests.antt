-- ===== src/Giop/Tests.antt =====
-- src/orb/GIOP at concrete messages.
mod Messages
mod Fragments
mod Receiving
mod Sending
