-- ===== src/Decisions.antt =====
-- What a command on a run decides (packages/runtime/src/domain/workflow/decision.ts).
pub mod Model
pub mod Requests
pub mod Drafts
pub mod Start
pub mod Continue
pub mod Resolve
pub mod Record
pub mod Applied
pub mod Continued
pub mod Redelivered
pub mod Recorded
pub mod Resolved
pub mod Started
pub mod Resumed
pub mod Total
pub mod Earned
pub mod Tests
