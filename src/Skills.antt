-- ===== src/Skills.antt =====
-- src/skills: the skills that are loaded, and what they bring.
pub mod Load
pub mod Paths
