-- ===== src/Transactions.antt =====
-- Managed mutations of the project's files, and the recovery of one that was interrupted, from
-- packages/runtime/src/domain/transactions.
mod Model
mod Checks
mod Recovery
mod Published
mod Next
mod Checked
mod Warranted
mod Separate
mod Plan
mod Effective
mod Legal
mod Fencing
mod Driving
mod Standing
mod Founded
mod Placed
mod Forward
mod Steps
mod Recovers
mod Tests
