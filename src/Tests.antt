-- ===== src/Tests.antt =====
-- Concrete runs of the theorems.
mod World
mod Logins
mod Keys
mod Homes
mod Storage
mod Reads
mod Calls
