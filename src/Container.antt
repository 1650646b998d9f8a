-- ===== src/Container.antt =====
-- The standard containers that the program keeps its state in.
pub mod Map
pub mod NameSet
pub mod Distinct
