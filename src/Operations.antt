-- ===== src/Operations.antt =====
-- internal/operations: the runner of configured operations, with its history, its version cache and
-- its tracker of system updates.
pub mod VersionCache
pub mod SysUpdate
pub mod History
pub mod Slots
pub mod Output
pub mod Runner
