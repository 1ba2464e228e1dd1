-- ===== src/Querylang.antt =====
-- The package querylang: what a parsed query is, and the parameters that are made of it.
pub mod ParsedQuery
pub mod Parser
mod Tests
