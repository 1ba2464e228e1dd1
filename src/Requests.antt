-- ===== src/Requests.antt =====
-- The package requests: how clients attach archive requests to URIs and remove them.
pub mod Api
mod Tests
