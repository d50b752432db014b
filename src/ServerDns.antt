-- ===== src/ServerDns.antt =====
-- dns.c, the first name server of sistema-archivos-distribuidos: a table of file servers, a table of
-- files and directories that point into it, and the requests that fill them.
pub mod Service
pub mod Tables
pub mod Kept
mod Examples
