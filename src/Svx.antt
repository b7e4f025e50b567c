-- ===== src/Svx.antt =====
-- The client of the SvxReflector protocol: messages, the reader loops, the handshake and the life of
-- a connection.
pub mod Wire
pub mod Messages
pub mod Reader
pub mod Connect
pub mod Lifecycle
mod Tests
