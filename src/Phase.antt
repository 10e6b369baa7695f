-- ===== src/Phase.antt =====
-- pkg/phase: the manager that runs the phases, and what it reports.
pub mod Report
pub mod Manager
pub mod Lock
pub mod Changes
pub mod Removed
pub mod Skew
pub mod Deletion
pub mod Validation
