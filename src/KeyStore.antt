-- ===== src/KeyStore.antt =====
-- The KeyStore interface of keystore.go, its in-memory implementation, the listing helper of
-- internal/keystore and the key cache.
pub mod Interface
pub mod Pages
pub mod Memory
pub mod Listing
pub mod Cache
pub mod Encrypted
pub mod Files
pub mod Fortanix
pub mod SecretManager
pub mod SecretsManager
pub mod Json
pub mod KeyControl
pub mod KeySecure
pub mod Remote
pub mod Vault
