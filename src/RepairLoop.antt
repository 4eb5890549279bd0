-- ===== src/RepairLoop.antt =====
-- The repair loop (packages/runtime/src/domain/repair-loop): from one acceptance verdict to the
-- decision that the run passed, is repaired once more, or stops.
pub mod Model
pub mod Decision
pub mod Artifact
pub mod Reading
pub mod Verdict
pub mod Recorded
pub mod Accepted
pub mod Agreement
pub mod Tests
