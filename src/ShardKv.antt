-- ===== src/ShardKv.antt =====
-- src/shardkv/: the key/value service whose shards move between replica groups.
pub mod Common
pub mod Shards
pub mod Server
pub mod Migration
pub mod Task
pub mod Copies
pub mod Handover
pub mod Frozen
pub mod Configs
pub mod Garbage
pub mod Once
pub mod Client
pub mod Rounds
mod Tests
