-- ===== src/Broker.antt =====
-- src/broker: the choke point that every dangerous action passes.
pub mod Decision
pub mod Undo
pub mod World
pub mod Authorize
