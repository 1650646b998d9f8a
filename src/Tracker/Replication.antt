-- ===== src/Tracker/Replication.antt =====
-- What a merge of the other tracker's records does to this one's state
-- (src/tracker/persistence.cpp).
pub mod Union
pub mod Keeping
pub mod Growth
