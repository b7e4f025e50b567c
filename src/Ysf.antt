-- ===== src/Ysf.antt =====
-- The connection to a YSF reflector: ysf_bridge.
pub mod Codec
pub mod Fich
pub mod Packet
pub mod Voice
pub mod Client
pub mod Tests
pub mod Bridge
