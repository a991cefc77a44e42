-- ===== src/Transport.antt =====
-- internal/transport: the connection of the receiver's server, and the sender's client.
pub mod Pipeline
pub mod Serving
pub mod Serial
pub mod View
pub mod Reading
pub mod Writing
pub mod Refines
pub mod Replies
pub mod Drained
pub mod Arrivals
pub mod Numbered
pub mod Client
pub mod Settled
pub mod Accepting
pub mod Table
pub mod Limited
