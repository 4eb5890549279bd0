-- ===== src/Gates.antt =====
-- The gates of a run (packages/runtime/src/domain/gates).
pub mod Model
pub mod Policy
pub mod Evaluate
pub mod Sorting
pub mod Outcomes
pub mod Clearance
pub mod Tests
pub mod Approvals
pub mod Readiness
