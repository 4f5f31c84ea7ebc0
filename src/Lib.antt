-- ===== src/Lib.antt =====
-- Verification of the key/value store's sharding and consensus (Go, module 6.5840 under src).
--
-- The program keeps the keys of a store in shards, assigns the shards to groups of servers, and
-- makes each group agree by Raft. The assignment is a configuration (`ShardConfig`) that a
-- controller changes by `Join` and `Leave`; clients route a key by `Key2Shard` and `GidServers`.
-- Raft peers elect a leader per term over a network that delays, loses and reorders RPCs.
--
-- The parts, the files that model them, and the code (paths from the repository's root):
-- - Shardcfg: src/shardkv1/shardcfg/shardcfg.go. Shardcfg/Config has the type `ShardConfig` and
--   MakeShardConfig, Copy, Key2Shard, GidServers and IsMember; Shardcfg/Analyze has `analyze` and
--   `least`; Shardcfg/Rebalance has the two loops of Rebalance; Shardcfg/Membership has Join, Leave,
--   JoinBalance and LeaveBalance; Shardcfg/Check has CheckConfig. Names are the code's, in
--   lower case. A Go map is a list of pairs, in the order in which a loop over it would go; the
--   array of shards is a list whose length, 12, is a field of `IsConfig`. A call that changes the
--   configuration in place returns the configuration that it leaves behind. log.Fatalf, panics and
--   fatalf end in an `Outcome` other than `ok`.
-- - Raft: src/raft1/raft.go. Raft/Peer has the state of a peer; Raft/Vote has RequestVote, the start
--   of an election in ticker, and the goroutine that reads the reply; Raft/Append has AppendEntries
--   and the goroutine of broadcastHeartbeats. Each critical section under the peer's mutex is one
--   function. Raft/System puts n peers together: `Step` is one critical section of one peer, or the
--   loss of a message, in any order; `Reach` is what can come about from the start.
-- - Labrpc: src/labrpc/labrpc.go. Labrpc/Network has the maps and flags of the network, which its
--   mutex guards; Labrpc/Service has the dispatch of a request to a method; Labrpc/Request has
--   processReq: the network when the request comes, at each timeout of the wait, and at its end are
--   arguments, since other goroutines change it meanwhile. What rand decides is an argument.
-- - Tester: src/tester1. Tester/Clients is clnts.go, a clerk's ends on the network;
--   Tester/Persister is persister.go; Tester/Group is srv.go and group.go, the servers of a group and
--   the ends between them; Tester/Parts is MakePartition of group.go.
--   Tester/Annotation is annotation.go: the store of marks and continuous annotations, and below it
--   Framework, the global state of checkers, connections and crashes; the time of each call is an
--   argument.
-- - RaftTest: src/raft1/test.go and src/raft1/server.go, the harness that the tests of Raft run
--   on. The checks read the servers one by one while they go on: RaftTest/Safety reads them from
--   the systems of Raft/System. RaftTest/Logs and RaftTest/Snapshots keep the servers' copies of
--   committed entries, RaftTest/Agreement submits a command and waits for it. An error that the
--   code gives to log.Fatalf or Fatalf is the outcome `fatal`; its text and the annotations that
--   the checks make are left out. Raft stands for any Raft in `one`, whose Start is a parameter.
-- - Labgob: src/labgob/labgob.go, what the wrapper of gob checks of types and of values. Types are
--   numbers with a table, since they may refer to themselves; the fuel is one more than their number.
-- - KvTest: src/kvtest1/kvtest.go, the checks that the tests make of versions and of appended
--   entries, over a clerk that is a parameter; its retry loop runs on fuel, where no bound is proved,
--   since a service may answer with errors for ever.
--   KvTest/Run has any number of OneClientAppend clients over the model of KvModel.
--   KvTest/Logged has the gets and puts of src/kvtest1/porcupine.go that are logged.
--   KvTest/OnePut has OnePut, whose loop runs on fuel too, and the JSON values.
-- - KvModel: src/models1/kv.go, the model of one key that the linearizability checker runs on.
--
-- Bounds and fuel. Ints are unbounded, with `incr` wrapping from the largest 64-bit int to the
-- smallest; an election step asks that the term has not reached that int. Group ids are ints. The
-- loop of Rebalance runs on fuel: the square of the number of shards bounds the sum of the squares
-- of the counts, which each move lowers, and so the fuel is enough.
--
-- The network's counters wrap at 32 and 64 bits, the versions of KvModel at 64.
--
-- Not modelled: JSON of a configuration; the FNV-1a hash, which is a parameter; sleeps and random
-- timeouts, which are arguments; gob itself; the map of groups; the picture that the annotations
-- are drawn in; the checker's drivers; goroutines that check types at the same time. A restart is no
-- step of the Raft system, and a panic ends a run: an AppendEntries that panics has no step. Key/value
-- server, replicated state machine, shard groups, controller and MapReduce are stubs in the code.
pub mod Base
pub mod Examples
pub mod KvModel
pub mod KvTest
pub mod Labgob
pub mod Labrpc
pub mod Raft
pub mod RaftTest
pub mod Shardcfg
pub mod Tester
