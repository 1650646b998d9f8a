-- ===== src/Tracker/Sharing.antt =====
-- Properties of the shared files of src/tracker/tracker_state.cpp.
pub mod FileKey
pub mod Seeders
