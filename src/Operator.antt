-- ===== src/Operator.antt =====
-- cmd/main.go: the flags, the options of the manager, and the start of the operator.
pub mod Options
pub mod Startup
pub mod Tls
pub mod Plan
