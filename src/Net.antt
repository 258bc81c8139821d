-- ===== src/Net.antt =====
-- pkg/net: dialing a workload that has just started.
pub mod Backoff
pub mod Dial
