-- ===== src/Api.antt =====
-- internal/api: errors and Multicast.
pub mod Errors
pub mod Multicast
