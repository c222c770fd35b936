-- ===== src/Registry.antt =====
-- src/registry: the decision layer over the mod registry.
pub mod Classify
mod Tests
