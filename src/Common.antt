-- ===== src/Common.antt =====
-- src/common: what the tracker and the client share.
pub mod Message
pub mod Hash
pub mod Auth
pub mod Socket
pub mod Config
