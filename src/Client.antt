-- ===== src/Client.antt =====
-- The Windows capture client, crates/precall-client.
pub mod Meta
pub mod Config
pub mod Session
pub mod Connect
pub mod Jpeg
pub mod Run
pub mod Dxgi
pub mod Audio
pub mod Privacy
