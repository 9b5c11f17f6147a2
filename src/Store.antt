-- ===== src/Store.antt =====
-- storage/postgres.py: the append-only table of memory entries, its writes and its reads.
pub mod Rows
pub mod Insert
pub mod Boundary
pub mod Prepare
pub mod Append
pub mod Reads
pub mod Listing
pub mod Search
pub mod Screened
pub mod Tests
