-- ===== src/Domain.antt =====
-- src/domain: the wire types, the pack config and the pure rules on them.
pub mod Side
pub mod Version
pub mod Manifest
pub mod Pack
pub mod Diff
mod Tests
