-- ===== src/Adapter.antt =====
-- internal/controller/guard_reconciler.go and guard_static_config.go: the reconciler of a Guard into
-- its adapter.
pub mod StaticConfig
pub mod Ensure
pub mod Reconcile
pub mod Validity
pub mod Runs
pub mod Reconciled
pub mod Succeeds
pub mod InPlace
