-- ===== src/Wal/Recovery.antt =====
-- internal/wal/wal.go: opening a directory that a crash has left, and what is there after an append.
pub mod Segments
pub mod Reindex
pub mod Listing
pub mod Starting
pub mod Rebuilt
pub mod Reopened
pub mod Numbering
pub mod Directory
pub mod Named
pub mod Relist
pub mod Relisted
pub mod Adding
pub mod Room
pub mod Grown
pub mod Taken
pub mod Resumed
pub mod Survives
