-- ===== src/Receiver.antt =====
-- internal/receiver: the frame handler and the state that it keeps.
pub mod Tracker
pub mod Window
pub mod Dedup
pub mod Dealt
pub mod Classify
pub mod State
pub mod Handle
pub mod Kept
pub mod Answer
pub mod Ack
pub mod Retry
pub mod Prefix
pub mod Done
pub mod History
pub mod Exact
pub mod Saved
pub mod Restored
pub mod Restart
