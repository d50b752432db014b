-- ===== src/PageServer.antt =====
-- tp8-memoria-compartida-distribuida: a server of shared memory pages with a queue of writers for
-- each page, and its client.
pub mod Message
pub mod Server
pub mod Threads
pub mod Memory
pub mod HandOver
pub mod Client
pub mod ClientSession
mod Examples
