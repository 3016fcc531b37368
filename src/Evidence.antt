-- ===== src/Evidence.antt =====
-- The package evidence: the checks on what a run leaves behind, and its sealing.
pub mod Checks
pub mod Hash
pub mod Receipt
pub mod Pytest
pub mod Manifest
pub mod Seal
mod Tests
