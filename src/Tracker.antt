-- ===== src/Tracker.antt =====
-- src/tracker: the tracker's sessions, its state and its command loop.
pub mod Session
pub mod State
pub mod Persistence
pub mod PeerLink
pub mod Dispatch
pub mod Connection
pub mod Operation
pub mod Sharing
pub mod Replication
pub mod Recovery
