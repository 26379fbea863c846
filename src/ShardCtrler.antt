-- ===== src/ShardCtrler.antt =====
-- src/shardctrler/: the service that assigns shards to replica groups.
pub mod Common
pub mod Balance
pub mod StateMachine
pub mod Server
pub mod Client
pub mod Joined
pub mod History
pub mod Once
mod Tests
