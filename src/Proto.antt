-- ===== src/Proto.antt =====
-- The payloads of both channels: src/proto.
pub mod InfoType
pub mod Incoming
pub mod Dispatch
