-- ===== src/Usage.antt =====
-- application/src/server/filesystem/usage.rs: the tree of directory sizes.
pub mod Space
pub mod Tree
pub mod Lookup
pub mod Update
pub mod Sorted
pub mod SortedOps
pub mod Removal
pub mod Accounts
pub mod Balance
pub mod Adding
pub mod Paths
mod Runs
