-- ===== src/Xlx.antt =====
-- The bridge to an XLX reflector for D-STAR: xlx_bridge.
pub mod Slow
pub mod Dcs
pub mod Client
pub mod Dextra
mod Tests
