-- ===== src/Api.antt =====
-- pkg/api: the HTTP server of the service.
pub mod Models
pub mod Routes
pub mod Platform
pub mod Server
pub mod Auth
pub mod Users
pub mod Keys
pub mod Serve
pub mod Redact
pub mod Invariant
pub mod Guarded
pub mod Panics
