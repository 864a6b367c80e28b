-- ===== src/Lib.antt =====
-- A local cloud for a vacuum robot: a verification of the server's own logic.
--
-- The program answers a robot on two channels. On channel A, plain HTTP, the robot registers,
-- binds, and uploads what it measured; on channel B it keeps one TCP connection open, on which the
-- server answers the handshake and the pings and pushes commands. The `commands` table of the
-- database is the queue between whoever enqueues a command and the connection that delivers it, the
-- `sessions` table holds the cookie and the key that a registration minted, and the registry says on
-- which connection a device is addressed. What a robot sends on either channel is dispatched by its
-- type into the tables for paths, maps, zone lists and events, which the web page reads; the page in
-- turn queues commands, edits zone lists, steers the robot and has its path polled.
--
-- The files and the code that they model, with paths from the repository's root:
--   Prelude, Prelude/*          shared notation and lemmas: Rust's options, byte texts, `i64`
--   Json                        the JSON values that the code reads and builds
--   Proto/InfoType, Incoming    src/proto/info_type.rs, and the message of src/proto/dispatch.rs
--   Proto/Dispatch              src/proto/dispatch.rs: what becomes of a message
--   ChannelB/Codec              src/channel_b/codec.rs: the decoder of `#\t#` frames
--   ChannelB/Envelope           src/channel_b/codec.rs: `envelope` and `message`
--   ChannelB/Writer             the writers of src/channel_b/codec.rs, `write_task` of conn.rs
--   ChannelB/Registry           src/channel_b/registry.rs
--   ChannelB/Conn, Conn/Reader  src/channel_b/conn.rs: one connection, and its reading loop
--   ChannelB/Gateway            src/channel_b/mod.rs: all the connections over one registry
--   ChannelB/Crypto             src/channel_b/crypto.rs
--   Queue                       src/commands.rs: one pass over the queue
--   Db/Rows                     the SQL statements that several tables share
--   Db/Commands, Sessions, Devices, Events, Paths, Slots, Maps
--                               the statements of src/db/queries.rs on those tables
--   Db/Paths/Shown              the rows of src/db/queries.rs that are drawn
--   ChannelA/Cookie, Credentials
--                               src/session.rs: the cookie of a request and its check
--   ChannelA/Register           src/channel_a/handlers/register.rs, and the minting of src/session.rs
--   ChannelA/Form               src/channel_a/form.rs
--   ChannelA/Multipart          src/channel_a/multipart.rs
--   ChannelA/Server, Handlers, Uploads
--                               src/channel_a/handlers: what the handlers share, and each of them
--   ChannelA/Router             src/channel_a/mod.rs: the routes, the session gate and the catch-all
--   CleanPath                   src/path.rs: the assembly of a path from its chunks
--   Backup                      src/backup.rs: the container of a map export
--   Map                         src/map.rs: the decoding of a grid and its summary
--   Web/Text, Fields, Zones     src/web.rs: the check of an edited zone list
--   Web/State, Requests         src/web.rs: the handlers that queue commands or write settings
--   Web/Watch, Poller           src/web.rs: the steering pad and its watchdog, and the path poller
--   Web/Restore                 src/web.rs: the export, the import and the download of a backup
--   Web/Recovery                src/web.rs: the accounts that old events bring back at start-up
--   Web/Drawn                   src/web.rs: the path that the page draws
--   Wire/Mask                   src/wire/mod.rs: the masking of session material
--   Wire/Jsonl                  src/wire/jsonl.rs: the trace file, its names and its rotation
--   Wire/Tap                    src/wire/mod.rs and src/wire/raw.rs: the trace of one unit of traffic
--   Tests/*                     runs of the definitions, and the theorems at concrete inputs
-- The modules below one of these hold its proofs and are named for what they prove.
--
-- How state and operations correspond to the code. A struct is a record and a `&mut self` method is
-- a function from the old record to the new one and the result. A table is the list of its rows in
-- rowid order and a statement is a function on it; a row id is one more than the largest in use, as
-- SQLite documents it for an INTEGER PRIMARY KEY. The registry is an association list. The tasks of
-- the gateway are steps of a relation, so that a theorem about the states that are reached holds for
-- every interleaving; a frame is handled in one step, as the registry's lock and the one task of a
-- connection make it. A request of the web page is one step too: no other request runs between its
-- awaits, so that two edits of a zone list that overlap, of which the code accepts both, are not
-- covered. Bytes and texts are lists of numbers, and Rust's `usize` is unbounded here: the
-- sizes are those of buffers in memory, but for the product of a map's dimensions, the `u32` counts
-- of its cells and the `i64` arithmetic on coordinates, which wrap around or are tested as in the
-- release build. Where the code is built with or without the Cargo feature
-- `history`, a Boolean argument says which.
--
-- Loops are structural recursion, but for those that cut a text: the scan of the decoder, the block
-- loop of the encryption, the loops of the form and multipart parsers and those of the masking run
-- on fuel. Each round takes at least one byte away, and the fuel given is the length of the text
-- (and one more for the scan, the multipart parser and the masking), so that it does not run out.
-- The loop past the full trace files of a day has one more than the number of files: each index that
-- it skips is another file.
--
-- Parameters, since their code is not in the repository: the JSON parser and writer, the derived
-- reader of an upload, the type of floating-point numbers, AES on one block, base64, LZ4, MD5, the
-- test for UTF-8, `trim` and the lossy decoding, the parsing and printing of numbers, the text of
-- a header, the router's decoding of a parameter in a path, the random bytes, the order in which
-- SQLite returns the rows of an UPDATE, whether a robot has a connection and whether its writer
-- still takes frames, whether the system opens a trace file, the local address that it would use
-- to reach a peer, and the clock. The theorems name what they ask of them: a digest has 16 bytes,
-- AES is undone by its inverse, the points of the path in question are read back as written (which
-- the JSON library does not promise of every floating-point number), the router's decoding of an
-- address leaves letters, digits, '-' and '_' as they are, and a JSON text holds no raw tab.
--
-- Not modelled: sockets, timers and files, which are calls of the system, but for the contents of
-- the trace directory; failures of the database, which the code logs; the layer that hands
-- requests and responses to the tap, its construction and the pruning of old traces, which goes by
-- the times of files; the pages of src/web.rs, and its answers that only read; src/console.rs,
-- src/config.rs and the start of the process.
pub mod Prelude
pub mod Json
pub mod Proto
pub mod Backup
pub mod CleanPath
pub mod Db
pub mod Map
pub mod ChannelA
pub mod ChannelB
pub mod Queue
pub mod Web
mod Tests
pub mod Wire
