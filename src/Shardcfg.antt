-- ===== src/Shardcfg.antt =====
-- shardkv1/shardcfg/shardcfg.go: which group of servers holds which shard.
pub mod Config
pub mod Analyze
pub mod Rebalance
pub mod Membership
pub mod Check
pub mod Routing
