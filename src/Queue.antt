-- ===== src/Queue.antt =====
-- pkg/queue: the pending-request counts of the interceptor and its request-rate buckets.
pub mod Time
pub mod Buckets
pub mod Float
pub mod Average
pub mod Memory
pub mod Counts
pub mod Rpc
