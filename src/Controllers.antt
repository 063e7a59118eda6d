-- ===== src/Controllers.antt =====
-- tugboat-controller-manager: what the controllers of workloads decide.
pub mod Workload
pub mod Deployment
pub mod ReplicaSet
mod Examples
