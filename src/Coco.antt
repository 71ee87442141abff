-- ===== src/Coco.antt =====
-- src/coco: what the camera's observations amount to.
pub mod Signals
pub mod World
pub mod Incidents
pub mod Judge
pub mod Adapter
