-- ===== src/Interceptor.antt =====
-- interceptor: what a request passes on its way to the workload.
pub mod Counting
pub mod Wait
pub mod Routing
pub mod Forward
pub mod Observe
pub mod Tls
pub mod Proxy
