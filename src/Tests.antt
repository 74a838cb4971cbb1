-- ===== src/Tests.antt =====
-- Runs of the theorems at concrete inputs.
pub mod Data
pub mod Barriers
pub mod Caches
pub mod Confs
pub mod Files
pub mod Servers
pub mod Startups
pub mod Stores
pub mod Ciphers
pub mod Multicasts
pub mod Remote
pub mod Vaults
pub mod Requests
pub mod Handlers
pub mod Routes
pub mod Backends
pub mod Clouds
