-- ===== src/Api.antt =====
-- internal/api.
pub mod RateLimit
pub mod BlockList
pub mod Auth
pub mod Explorer
pub mod Handler
pub mod Listener
pub mod Server
pub mod Router
