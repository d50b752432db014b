-- ===== src/ElementClient.antt =====
-- cliente_nuevo.c: the client of the file system of elements.
pub mod Folder
pub mod Request
pub mod Serving
pub mod Answer
pub mod System
pub mod Downloads
pub mod Headers
pub mod Pieces
pub mod FolderTransfer
pub mod FolderContents
pub mod Session
pub mod Refused
pub mod Stretches
pub mod Interleaving
pub mod Turns
pub mod Exclusion
pub mod NoLostUpdate
mod TurnExamples
mod Examples
