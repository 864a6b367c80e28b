-- ===== src/Db.antt =====
-- The tables of the database and the queries on them: src/db/queries.rs.
-- A table is the list of its rows in rowid order. SQL is read as SQLite documents it: a new rowid
-- is one more than the largest in use, and a statement sees the table as the last one left it.
pub mod Rows
pub mod Commands
pub mod Sessions
pub mod Events
pub mod Paths
pub mod Slots
pub mod Maps
pub mod Devices
