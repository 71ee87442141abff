-- ===== src/Api.antt =====
-- src/api: the intents, and who may ask for what.
pub mod Admin
pub mod Auth
pub mod Limiter
pub mod Dialer
pub mod Intents
pub mod Server
pub mod Portal
pub mod Stream
