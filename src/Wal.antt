-- ===== src/Wal.antt =====
-- src/wal.rs: the write-ahead log, a file for each height and an index file with the height.
pub mod Decimal
pub mod Disk
pub mod Log
