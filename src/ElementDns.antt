-- ===== src/ElementDns.antt =====
-- servidor_dns_nuevo.c, the name server of sistema-archivos-distribuidos: its table of files and
-- folders, its requests, and the write lock of each element.
pub mod Service
pub mod Messages
pub mod Exchange
pub mod Table
pub mod Entry
pub mod Locking
mod Examples
