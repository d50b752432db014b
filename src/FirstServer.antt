-- ===== src/FirstServer.antt =====
-- file_server.c of sistema-archivos-distribuidos, which registers its files with dns.c.
pub mod Commands
pub mod Exchange
pub mod Registered
pub mod Session
mod Examples
