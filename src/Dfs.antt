-- ===== src/Dfs.antt =====
-- The file system of sylan/p2/dfs/fs.go.
pub mod Chunks
pub mod State
pub mod Wire
pub mod Load
pub mod Ops
pub mod Handlers
pub mod Save
pub mod Content
