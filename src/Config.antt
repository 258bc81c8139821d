-- ===== src/Config.antt =====
-- The environment that the processes are configured by.
pub mod Env
pub mod Leader
pub mod Operator
pub mod Serving
