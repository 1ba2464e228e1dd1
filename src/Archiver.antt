-- ===== src/Archiver.antt =====
-- The package archiver.
mod Tests
pub mod Stream
pub mod Stores
pub mod Prepare
pub mod Select
pub mod Mask
pub mod Query
pub mod Reply
pub mod Requests
pub mod Views
pub mod Handling
pub mod Uris
pub mod Mux
