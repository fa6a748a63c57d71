-- ===== src/Store/Ukg.antt =====
-- crates/precall-store/src/ukg.rs and schema.rs: the metadata database. A table is the list of
-- its rows in the order of insertion, with the counter of its AUTOINCREMENT key; an SQL statement
-- of the source is a function on the tables. A transaction is one function: SQLite commits all of
-- it.
pub mod Tables
pub mod Ingest
pub mod Queues
pub mod Dwell
pub mod Rows
pub mod Timeline
pub mod Hits
pub mod Listings
pub mod Wipe
