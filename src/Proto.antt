-- ===== src/Proto.antt =====
-- The wire protocol, crates/precall-proto.
pub mod Error
pub mod Bytes
pub mod Channel
pub mod Mux
pub mod Gfx
pub mod Metadata
pub mod Handshake
pub mod Limited
pub mod Pinning
