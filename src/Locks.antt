-- ===== src/Locks.antt =====
-- Leases on the project and on runs (packages/runtime/src/domain/locks).
pub mod Model
pub mod Scope
pub mod Policy
pub mod Lifecycle
pub mod Successor
pub mod Decimal
pub mod Operations
pub mod History
pub mod Trail
pub mod Epochs
pub mod Roots
pub mod RunIds
pub mod Tests
