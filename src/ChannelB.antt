-- ===== src/ChannelB.antt =====
-- The push gateway: src/channel_b.
pub mod Codec
pub mod Envelope
pub mod Registry
pub mod Conn
pub mod Gateway
pub mod Crypto
pub mod Writer
