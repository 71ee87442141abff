-- ===== src/Models.antt =====
-- src/models: which model may see which payload.
pub mod Client
pub mod Router
pub mod Screen
pub mod Plan
