-- ===== src/Wire.antt =====
-- The wire tap, src/wire: what is traced, and where it lands.
pub mod Mask
pub mod Jsonl
pub mod Tap
