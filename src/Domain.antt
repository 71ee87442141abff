-- ===== src/Domain.antt =====
-- src/domain: the danger taxonomy, the action that the Broker governs, and the prohibited list.
pub mod Taxonomy
pub mod Action
pub mod Prohibited
