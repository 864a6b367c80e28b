-- ===== src/Web.antt =====
-- The web interface, src/web.rs.
pub mod Text
pub mod Fields
pub mod Zones
pub mod State
pub mod Requests
pub mod Watch
pub mod Poller
pub mod Restore
pub mod Recovery
pub mod Drawn
