-- ===== src/Conf.antt =====
-- kesconf: the configuration file of the server, from the decoded YAML to the server's Config.
pub mod Sections
pub mod Yml
pub mod File
pub mod Checks
pub mod Vault
pub mod Clouds
pub mod Stores
pub mod Texts
pub mod Levels
pub mod Server
pub mod Backends
pub mod Connect
pub mod Version
pub mod Config
