-- ===== src/Transport.antt =====
-- src/synology_mcp/transport/
pub mod Envelope
pub mod Http
pub mod Ssh
