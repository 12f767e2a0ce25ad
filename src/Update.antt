-- ===== src/Update.antt =====
-- pylib/omniroute_update.py: the updater of OmniRoute.
pub mod Reference
pub mod Documents
pub mod Image
pub mod Snapshot
pub mod Commit
pub mod Literal
pub mod Projection
mod Tests
