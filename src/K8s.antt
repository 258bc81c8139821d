-- ===== src/K8s.antt =====
-- pkg/k8s: the endpoints of a service.
pub mod Addresses
pub mod EndpointsCache
