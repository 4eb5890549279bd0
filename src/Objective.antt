-- ===== src/Objective.antt =====
-- The objective of a project and the feature that it names, from
-- packages/runtime/src/domain/objective.
mod Lifecycle
mod Named
mod Opened
mod Tests
