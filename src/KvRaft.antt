-- ===== src/KvRaft.antt =====
-- src/kvraft/: a replicated key/value service over one consensus group.
pub mod Common
pub mod MemoryKv
pub mod Server
pub mod Client
pub mod Once
pub mod Refinement
pub mod Notify
pub mod Retry
pub mod KvModel
pub mod Linear
mod Tests
