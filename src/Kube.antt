-- ===== src/Kube.antt =====
-- The Kubernetes side of the controllers: errors, resources, and the client that they call.
pub mod Errors
pub mod Results
pub mod Types
pub mod Json
pub mod Objects
pub mod Client
pub mod Settled
