-- ===== src/Model.antt =====
-- internal/model/model.go: the reference implementation, where each commit holds a whole table.
pub mod State
pub mod Commit
pub mod Ancestry
pub mod Merging
pub mod Sessions
pub mod Reads
pub mod Refinement
