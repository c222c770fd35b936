-- ===== src/Build.antt =====
-- src/authoring/build.rs: the pure parts of a build.
pub mod Required
pub mod Version
mod Tests
