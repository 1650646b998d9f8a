-- ===== src/Tests.antt =====
-- The theorems at concrete inputs, and runs of the model that can be followed in the source.
mod Client
mod Downloads
mod Interface
mod Link
mod Recovery
mod Tracker
mod Runs
