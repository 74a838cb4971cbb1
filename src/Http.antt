-- ===== src/Http.antt =====
-- internal/http: the client that retries requests.
pub mod Retry
