-- ===== src/Migration.antt =====
-- tp4-migracion-procesos: a client sends a C program to a server, which compiles and runs it.
pub mod Service
pub mod Delivery
mod Examples
