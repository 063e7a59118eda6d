-- ===== src/Apiserver.antt =====
-- tugboat-apiserver: who may do what, what of it is logged, and how a resource is read and deleted.
pub mod Rbac
pub mod Audit
pub mod Handlers
mod Examples
