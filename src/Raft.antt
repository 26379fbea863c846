-- ===== src/Raft.antt =====
-- src/raft/: one peer of the consensus group.
pub mod Log
pub mod State
pub mod Election
pub mod Replication
pub mod Compaction
pub mod Application
pub mod Durable
pub mod Steps
pub mod Votes
pub mod Matching
pub mod Commit
pub mod Applying
pub mod Panics
pub mod Roles
pub mod Cluster
pub mod Majority
pub mod Ballots
pub mod Asking
pub mod Standing
pub mod Polls
pub mod Elected
mod Samples
mod Tests
mod ElectedTests
