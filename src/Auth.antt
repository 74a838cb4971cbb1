-- ===== src/Auth.antt =====
-- auth.go: names and patterns, client identification and authentication.
pub mod Names
pub mod Requests
pub mod Identify
