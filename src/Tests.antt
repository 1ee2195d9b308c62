-- ===== src/Tests.antt =====
-- Concrete runs of the definitions, and the theorems at concrete inputs.
mod Authz
mod Cluster
mod Memory
mod Lenient
mod Headers
mod Nested
mod Removed
mod Settled
mod Operator
mod InPlace
mod Reconcilers
mod Parts
