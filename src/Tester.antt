-- ===== src/Tester.antt =====
-- The test harness of src/tester1: clients, groups and the persister.
pub mod Annotation
pub mod Clients
pub mod Persister
pub mod Parts
pub mod Group
