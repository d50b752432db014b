-- ===== src/ElementServer.antt =====
-- servidor_archivos_nuevo.c: the file server of the file system of elements.
pub mod Daemon
pub mod Commands
pub mod Frame
mod Examples
