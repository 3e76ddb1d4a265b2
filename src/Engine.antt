-- ===== src/Engine.antt =====
-- internal/engine/engine.go: the interval engine.
pub mod State
pub mod Resolve
pub mod Commit
pub mod History
pub mod Publish
pub mod Ancestry
pub mod Masks
pub mod Merging
pub mod Sessions
pub mod Diff
pub mod Probes
pub mod Passes
pub mod Recorded
