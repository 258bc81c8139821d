-- ===== src/Operator.antt =====
-- operator/controllers: the reconciler that gives every HTTPScaledObject its ScaledObject.
pub mod Conditions
pub mod Finalizer
pub mod ScaledObject
pub mod Client
pub mod Reconcile
pub mod Scales
