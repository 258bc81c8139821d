-- ===== src/Routing.antt =====
-- pkg/routing: the routing keys, the routing memory and the table that keeps it up to date.
pub mod Key
pub mod Radix
pub mod Memory
pub mod Signaler
pub mod Table
