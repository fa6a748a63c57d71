-- ===== src/Api.antt =====
-- The HTTP query server, crates/precall-api.
pub mod Auth
pub mod Embed
pub mod Enrich
pub mod Search
pub mod Routes
