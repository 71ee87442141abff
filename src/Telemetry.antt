-- ===== src/Telemetry.antt =====
-- src/telemetry: how a handoff between agents is shown, and which records and handoffs the audit shows.
pub mod Display
pub mod Narrate
pub mod Audit
pub mod Awaits
