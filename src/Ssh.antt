-- ===== src/Ssh.antt =====
-- src/synology_mcp/ssh.py
pub mod Pubkey
pub mod KeysFile
pub mod Keys
pub mod Port
pub mod Admin
pub mod Enable
