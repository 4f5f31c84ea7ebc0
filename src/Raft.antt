-- ===== src/Raft.antt =====
-- raft1/raft.go: leader election among Raft peers.
pub mod Peer
pub mod Vote
pub mod Append
pub mod System
