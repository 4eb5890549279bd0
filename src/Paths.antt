-- ===== src/Paths.antt =====
-- Paths inside the project and the surface that a plan may write, from
-- packages/runtime/src/domain/paths and packages/runtime/src/domain/transactions/surface.ts.
pub mod Canonicalize
mod Segments
mod Canonical
pub mod Surface
mod Managed
mod Resolved
mod Absolute
mod Tests
