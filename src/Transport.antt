-- ===== src/Transport.antt =====
-- src/transport and src/channels: how an observation is matched, and what a message carries.
pub mod Modality
pub mod Triggers
