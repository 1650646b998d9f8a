-- ===== src/Tracker/State.antt =====
-- src/tracker/tracker_state.h and .cpp: the tracker's state and its commands. Each command holds
-- the lock for its whole body, so it is one step from a state to a state.
mod Types
mod Accounts
mod Groups
mod Files
unfoldable pub use Types.*
unfoldable pub use Accounts.*
unfoldable pub use Groups.*
unfoldable pub use Files.*
