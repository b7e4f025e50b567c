-- ===== src/Dmr.antt =====
-- The DMR bridge's protocol: DMRD frames, the interleaving of voice bursts, the login packets, and
-- the client.
pub mod Frame
pub mod Burst
pub mod Login
pub mod Client
pub mod Connect
mod Tests
