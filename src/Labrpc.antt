-- ===== src/Labrpc.antt =====
-- The simulated network of src/labrpc/labrpc.go.
pub mod Network
pub mod Service
pub mod Request
pub mod Delivery
pub mod Fates
pub mod Ends
