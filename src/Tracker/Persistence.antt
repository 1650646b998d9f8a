-- ===== src/Tracker/Persistence.antt =====
-- src/tracker/persistence.cpp: one line for each record, words separated by a space. The same
-- text is the snapshot on disk and what the trackers send one another.
mod Serialize
mod Records
mod Snapshot
unfoldable pub use Serialize.*
unfoldable pub use Records.*
unfoldable pub use Snapshot.*
