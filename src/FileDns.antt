-- ===== src/FileDns.antt =====
-- dns_server.c, the name server of tp7: its table of files, its requests, and the write lock of each
-- file.
pub mod Service
pub mod Locking
mod Examples
