-- ===== src/Policy.antt =====
-- src/policy: globs, the compiled envelope with its deltas, and the ports that widen it.
pub mod Glob
pub mod Envelope
pub mod Port
pub mod Simulated
pub mod Compile
pub mod OpenShell
