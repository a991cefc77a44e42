-- ===== src/Sender.antt =====
-- internal/sender/sender.go: the loop that sends the frames of the log.
pub mod Backoff
pub mod Round
pub mod AtLeastOnce
pub mod Answered
pub mod Pipeline
pub mod Matched
pub mod Delivers
pub mod Spent
pub mod Rounds
pub mod Unpaced
pub mod Released
pub mod Releases
