-- ===== src/Tests.antt =====
-- The theorems at concrete inputs, on which their hypotheses hold.
mod Data
mod Queue
mod Routing
mod Cluster
mod Scaler
mod Fetch
mod Config
mod Operator
mod Interceptor
mod Churn
mod Process
mod Start
