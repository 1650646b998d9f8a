-- ===== src/Client/Downloader.antt =====
-- src/client/downloader.cpp: the download of a file, piece by piece, from several peers.
pub mod Info
pub mod Reply
pub mod Storage
pub mod Fetch
pub mod Pool
pub mod Run
pub mod Report
