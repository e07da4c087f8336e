-- ===== src/Epaxos.antt =====
-- The replica of sylan/p4/partB/replica/replica.go.
pub mod Messages
pub mod State
pub mod Init
pub mod Cluster
pub mod Conflicts
pub mod Handlers
pub mod Execute
pub mod Dispatch
pub mod Sound
pub mod System
mod Examples
