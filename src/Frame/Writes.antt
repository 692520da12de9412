-- ===== src/Frame/Writes.antt =====
-- The tools that write, within a frame that allows every request.
pub mod Home
pub mod Shares
pub mod Packages
pub mod Ssh
