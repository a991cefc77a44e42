-- ===== src/Config.antt =====
-- internal/config: the settings.
pub mod Durations
pub mod Sizes
pub mod Settings
pub mod Receiving
pub mod Effective
pub mod Lag
pub mod Backfill
pub mod Accepted
