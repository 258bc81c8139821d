-- ===== src/Scaler.antt =====
-- scaler: KEDA's external scaler, which reports the interceptors' counts as metrics.
pub mod Naming
pub mod ParseInt
pub mod Pinger
pub mod Fetch
pub mod Handlers
pub mod Health
