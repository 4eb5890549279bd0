-- ===== src/Workflow.antt =====
-- The run of a feature as a state machine over its events
-- (packages/runtime/src/domain/workflow/model.ts and reducer.ts).
pub mod Model
pub mod Acceptance
pub mod Phases
pub mod Starts
pub mod Repair
pub mod Reducer
pub mod Canonical
pub mod Run
pub mod Counts
pub mod Attempts
pub mod Diagram
pub mod Holds
pub mod Tests
