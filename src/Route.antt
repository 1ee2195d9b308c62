-- ===== src/Route.antt =====
-- internal/controller/toolroute_reconciler.go: the reconciler of a ToolRoute.
pub mod Numbers
mod Digits
pub mod Upstream
pub mod Ensure
pub mod Reconcile
pub mod Watches
pub mod Bounds
pub mod Covered
pub mod EnsureRuns
pub mod Runs
pub mod Reconciled
pub mod Settled
pub mod Succeeds
pub mod InPlace
