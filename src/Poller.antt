-- ===== src/Poller.antt =====
-- internal/sender/poller.go: the windows that are queried, and the frames that are made of them.
pub mod Window
pub mod Split
pub mod Groups
pub mod Packed
pub mod Bounds
pub mod Once
pub mod Ordered
pub mod Pressure
