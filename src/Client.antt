-- ===== src/Client.antt =====
-- src/client: what a client shares with other clients.
pub mod UploadRegistry
pub mod Port
pub mod TrackerClient
pub mod Downloader
pub mod Commands
pub mod Http
pub mod WebUi
pub mod PeerServer
