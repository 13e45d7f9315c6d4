-- ===== src/Lib.antt =====
-- A verification library of torrust-index, the index server for BitTorrent: users upload torrent
-- files, the index stores them in a database, puts them on the list of a tracker, and gives them out
-- with the tracker's URL in them.
--
-- The parts and their files:
--
--   Base          what all files share: tests on numbers, lists, texts as UTF-8 bytes, and `Outcome`,
--                 the way a call ends: Ok, Err or a panic.
--   Cache         the byte cache, src/cache/mod.rs: Keys has the map's entries, Eviction the loop that
--                 frees room, Correct the invariant. The crate indexmap is the interface Cache/Table,
--                 which Cache/ListMap implements.
--   Image         the proxy cache for images and its quotas, src/cache/image/manager.rs.
--   Hex, InfoHash src/utils/hex.rs and src/models/info_hash.rs; the crate binascii is the interface
--                 InfoHash/Codec.
--   Torrent       src/models/torrent_file.rs; Rows has the conversions of src/databases/sqlite.rs
--                 between a torrent and its rows, Reload what comes back of a torrent.
--   Parse         src/utils/parse_torrent.rs and the info-hash of a torrent; the crates serde_bencode
--                 and sha1 are the interface `Bencode`.
--   Listing       src/models/torrent.rs, src/models/response.rs, the listing requests.
--   Errors        src/errors.rs; DbError and Database are src/databases/database.rs, the trait as a
--                 record of operations over a state of any type; Models are users and keys.
--   Sql           the statements of SQL on a table that is a list of rows, and their laws.
--   Sqlite        src/databases/sqlite.rs on the tables of migrations/sqlite3. Accounts, Catalog,
--                 Torrents, Downloads, Updates, Listings and Search have the methods, Schema the
--                 constraints and that each method keeps them, Driver the changes to all tables, Interface
--                 the driver as the trait's record, Deleted what the deletion of a torrent does, Uploading
--                 a rule for the transaction of an upload, Registration and Storage what transactions
--                 achieve.
--   Config        src/config.rs; Secrets is about what readers see of the secrets.
--   Web           src/web/api/server/v1: the user of a request (auth.rs, extractors) and, in Payload,
--                 the form of an upload (contexts/torrent/handlers.rs).
--   Services      src/services and src/tracker. World is what a call sees and changes: the state of
--                 the database and the requests that were sent to the tracker. Users has the guard for
--                 administrators (`require_administrator`), Catalog the categories and tags, Login the
--                 tokens and passwords, Accounts the registration, Index the torrents, Information a
--                 torrent's page, Settings the settings for the API, Tracker the tracker's API and the
--                 import of its numbers; Refusals is about who may call what.
--   Samples       the data of the tests, which stand in modules called Tests.
--
-- An operation of a service is a function from its arguments and the world to the new world and an
-- outcome; `?` in the source is `>>=`, which keeps the world as it is when the call stops early.
-- `drop_result` stands for `drop(call.await)` and `attempt` for a `match` on a result. Only one call
-- runs at a time. `add_torrent` is the composition of `check_upload` and `store_upload`, its two
-- halves. Each reading of the clock is an argument.
--
-- What is not under src is a parameter: the crates for hashes and tokens are `Crypto`, the tracker's
-- answers and serde_json are `Api`, the answer of the mail server and the crate email_address are
-- functions. Ids and 64-bit integers are naturals; where the source can overflow, the reduction modulo
-- 2 ^ 32 or 2 ^ 64 of a release build is written out (page offsets, expiry times, file sizes).
--
-- The engine of SQLite fails only where a constraint is violated. AUTOINCREMENT gives no id twice, and
-- a NULL that is decoded into a String is the empty text. Rows keep the order of their insertion where
-- SQL leaves the order open, save in a search, where the order of ties is a parameter; what the engine
-- makes of a query in which a quoted name has a quote is a parameter too. A transaction that is not
-- committed leaves the tables as they were.
--
-- All loops are structural recursion. The cache's eviction runs on fuel, one unit for each entry,
-- which is enough because each round takes one entry out; `trim` takes one round for each byte.
--
-- Not modelled: the driver for MySQL, the web server's routes and handlers, the reading of the
-- configuration's files, the mailer's letters, the console commands, the upgrade tool, and logging.
pub mod Base
pub mod Cache
pub mod Config
pub mod Database
pub mod DbError
pub mod Errors
pub mod Hex
pub mod Image
pub mod InfoHash
pub mod Listing
pub mod Models
pub mod Parse
pub mod Samples
pub mod Services
pub mod Sql
pub mod Sqlite
pub mod Torrent
pub mod Web
