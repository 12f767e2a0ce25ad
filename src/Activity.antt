-- ===== src/Activity.antt =====
-- pylib/omniroute_activity.py: is OmniRoute idle, so that it may be updated? One sample of its
-- activity (`Sample`, `Collector`), and the gate that waits for a quiet window (`Gate`).
pub mod Sample
pub mod Profile
pub mod Documents
pub mod Logs
pub mod Collector
pub mod Gate
pub mod Observer
