-- ===== src/Wal.antt =====
-- internal/wal: the segmented write-ahead log.
pub mod Scan
pub mod Records
pub mod Rescan
pub mod Tail
pub mod Fuel
pub mod State
pub mod Append
pub mod Commit
pub mod Cursor
pub mod Open
pub mod Outcome
pub mod Rewind
pub mod Leaving
pub mod Order
pub mod Peeked
pub mod Written
pub mod Durable
pub mod Steady
pub mod Wedged
pub mod Batch
pub mod Recovery
