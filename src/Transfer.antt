-- ===== src/Transfer.antt =====
-- Files over a connection, as the file servers and clients send them (servidor_archivos_nuevo.c,
-- cliente_nuevo.c and the programs of tp7): the loops over fread, send and recv, and a file system.
pub mod Loops
pub mod Files
mod Examples
