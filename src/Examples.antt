-- ===== src/Examples.antt =====
-- Runs of the model at concrete inputs.
pub mod Frames
pub mod Log
pub mod Handler
pub mod Sending
pub mod Links
pub mod Starting
pub mod Delivering
pub mod Reopening
