-- ===== src/Startup.antt =====
-- cmd/sender/main.go: how a sender starts.
pub mod Backfilling
pub mod Started
