-- ===== src/Gateway.antt =====
-- internal/controller/toolgateway_reconciler.go: the reconciler of a ToolGateway.
pub mod Guardrails
pub mod Watches
pub mod Reconcile
pub mod GuardrailRuns
pub mod Runs
pub mod Reconciled
pub mod Covered
pub mod Settled
pub mod Succeeds
pub mod InPlace
