-- ===== src/Rewind.antt =====
-- The Open DMR Terminal connection of the DMR bridge: packets and client.
pub mod Packet
pub mod Client
pub mod Reader
pub mod Transmit
mod Tests
