-- ===== src/Api.antt =====
-- internal/api: the HTTP server.
pub mod Limiter
pub mod Sessions
pub mod Stream
pub mod Errors
pub mod Access
pub mod Handlers
pub mod Config
pub mod Source
pub mod Health
pub mod Startup
pub mod Routes
mod Tests
