-- ===== src/Lib.antt =====
-- Nexus-Mind: a replicated key/value store, the service that assigns its shards, and the
-- consensus library under both.
-- The program. A peer of the consensus library (src/raft/) keeps a log of commands, elects
-- leaders, replicates the log, cuts it at snapshots, and hands the committed commands to its
-- service. The key/value service (src/kvraft/) and the shard controller (src/shardctrler/) each
-- stand beside one peer: their handlers submit commands to it and wait on a channel for the
-- reply, and their apply loops run the committed commands on a state machine, once each. The
-- sharded store (src/shardkv/) is a key/value service per replica group: when the controller's
-- configuration changes, groups hand their shards over to each other. Their clerks call one
-- server after the other until one answers. Apart from these, a vector database (src/models/,
-- src/vector/) holds vectors with metadata in collections, finds the nearest ones to a query
-- among those that a filter lets pass, and answers requests about them.
--
-- Which file models which part. State is a record with the source's fields, an operation is a
-- function from the state before to the state after and the result, `Option` where the code can
-- panic (an index out of range, a failed type assertion, an explicit panic) or block. A function
-- of the model has the source's name in lower case with underscores.
--   * Raft/Log: src/raft/raft_log.go. Log/Reads: what can be read after each change of the log.
--   * Raft/State: src/raft/raft.go, raft_persistence.go and persister.go. Raft/Election:
--     raft_election.go. Raft/Replication: raft_replication.go. Raft/Compaction:
--     raft_compaction.go. Raft/Application: raft_application.go.
--   * Raft/Steps: the life of a peer as a sequence of steps, each one critical section of its
--     lock, or a crash with a restart over what is stored. Durable, Votes, Matching, Commit,
--     Applying, Panics and Roles hold the proofs about it.
--   * Raft/Cluster: peers that hold elections among each other, each with its own count of
--     votes; Ballots, Asking, Majority, Standing, Polls and Elected hold the proof that they
--     elect one leader.
--   * KvRaft/Common, MemoryKv, Server and Client: src/kvraft/common.go, state_machine.go,
--     server.go and client.go. Once, Refinement, Notify and Retry hold the proofs; Refinement
--     has the specification, one map on which each new write acts.
--   * ShardCtrler/Common, Balance, StateMachine, Server and Client: src/shardctrler/common.go,
--     state_machine.go (the balancing apart from the configurations), server.go and client.go.
--     Balance/Sums, Extremes, Places, Counts, Keys and Ends, Joined, History and Once hold the
--     proofs.
--   * ShardKv/Common, Shards, Server, Task and Migration: src/shardkv/common.go,
--     state_machine.go, server.go, task.go and conf_change.go. The other modules hold the
--     proofs.
--   * KvRaft/KvModel: src/models/kv.go, the specification that the linearizability checker is
--     given; Linear holds the proofs.
--   * Vector/Numbers: the arithmetic of float32 and float64, a parameter. Vector/Values: the
--     values of metadata. Vector/Model and Bytes: src/models/vector.go. Vector/Metadata:
--     src/models/metadata.go. Vector/Distance: src/vector/distance.go. Vector/LinearIndex:
--     src/vector/index/linear.go. Vector/Collection: src/models/vector_collection.go.
--     Vector/Processor: src/vector/query/processor.go. Vector/Paths, Api, Api/Resources and
--     Api/Queries: src/vector/query/api.go. RoundTrip, Bounds, Filters, Nearest, Atomic, Paging,
--     Erased, Kept and Routes hold the proofs.
--   * Prelude: native numbers, lists, options and integers that the parts share, with Dict for
--     Go's maps, Sort for sort.Ints, and Slice for sort.Slice.
--   * The Tests modules apply the theorems to small runs.
--
-- Numbers. Go's int is a natural number where the code keeps it from being negative, and an
-- integer where it does not (votes, group ids, the shard of a move, the number of a query);
-- 64-bit overflow of terms, indices and sequence numbers is not modelled.
-- Loops. A loop over a slice or a list of peers is recursion on it. The clerks' endless loops
-- are recursion on the list of the answers that their calls give. The loop of Join runs on fuel,
-- 221 rounds: a shard of no group weighs 22, a group with n shards weighs n * n, so that at most
-- 10 shards weigh at most 220, and every move makes the table lighter.
-- Parameters. The arithmetic of float32 and float64 is a record of operations; what a theorem
-- needs of it, that `<` orders the numbers other than NaN or that a number is read back from its
-- 32 bits, is a named hypothesis. The encoder of labgob (src/labgob/, over encoding/gob) is a
-- record with the law that what was encoded decodes to itself. The time and the random part of a
-- timeout are arguments of the operations that read them. The network gives any message at any
-- time, and `none` for a call that failed.
-- Concurrency. Each critical section of a lock is one step; the two critical sections of the
-- apply loop and of a handler that waits are steps of their own, so that others can come
-- between. The service and its peer have different locks, so what the service reads of its peer
-- is an argument. The HTTP interface has no lock; here each of its requests is one step.
-- Maps. Go goes through a map in any order; here it is the order of the list.
-- Not modelled: the loops of src/shardkv/task.go that send the calls to other groups, but for
-- what they read and propose, log output, the tickers' sleeping times, sync.Cond (a round of the
-- apply loop may start at any time), the simulated network, the test harness, the checker in
-- src/porcupine/, the encoding of requests and answers in src/vector/query/api.go, src/main.go,
-- and src/vector/distance_simd.go, whose functions call the scalar ones. Metadata of Go types
-- that JSON does not give (other number types, slices of strings or numbers) is left out. A
-- pointer from a result into the index is the key of the vector there, since a query is
-- processed with no insertion in between.
pub mod Prelude
pub mod KvRaft
pub mod Raft
pub mod ShardCtrler
pub mod ShardKv
pub mod Vector
