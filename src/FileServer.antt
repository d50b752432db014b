-- ===== src/FileServer.antt =====
-- tp7-sistema-archivos-distribuidos: the file server and the client.
pub mod Lines
pub mod Service
pub mod Client
pub mod Delivery
mod Examples
