-- ===== src/Examples.antt =====
-- Runs of the code on small inputs, and the theorems at these inputs.
mod Configs
mod Votes
mod Election
mod Net
mod Harness
mod Group
mod RaftTest
mod Timeline
mod Labgob
mod Appends
mod Logged
mod OnePut
