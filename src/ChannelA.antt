-- ===== src/ChannelA.antt =====
-- The HTTP side of the server: src/session.rs and src/channel_a.
pub mod Cookie
pub mod Credentials
pub mod Register
pub mod Form
pub mod Multipart
pub mod Server
pub mod Handlers
pub mod Uploads
pub mod Router
