-- ===== src/Iax.antt =====
-- The bridge to an Asterisk exchange: the frames of IAX2, the client, and the mu-law codec.
pub mod Frame
pub mod Client
pub mod Ulaw
mod Tests
