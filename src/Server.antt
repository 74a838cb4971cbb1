-- ===== src/Server.antt =====
-- server.go, state.go and the routes of internal/api: the state of a server, its handlers and its
-- policies.
pub mod State
pub mod Config
pub mod Logs
pub mod Predefined
pub mod Lifecycle
pub mod Start
pub mod Close
pub mod Reach
pub mod Closed
pub mod Updated
pub mod Table
pub mod Setup
pub mod Keys
pub mod Lists
pub mod Routes
