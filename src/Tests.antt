-- ===== src/Tests.antt =====
-- Runs of the definitions on concrete inputs, and the theorems at inputs that meet their conditions.
mod Codec
mod Gateway
mod Path
mod Files
mod Queue
mod Login
mod Tables
mod Multipart
mod Maps
mod Dispatch
mod Web
mod Restore
mod Server
mod Wire
mod Drawn
mod Writer
