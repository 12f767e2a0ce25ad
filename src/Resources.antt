-- ===== src/Resources.antt =====
-- pylib/resources.py: how much of the host each container may use. CPU amounts are in thousandths of
-- a core and percentages whole numbers; memory is in MiB. An override is what YAML gave.
pub mod Overrides
pub mod Limits
pub mod Verdict
mod Positive
mod Fits
mod Tests
