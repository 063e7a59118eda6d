-- ===== src/Scheduler/Plugins.antt =====
-- tugboat-scheduler/src/plugins: one module for a filter or scorer, or for the two of one name.
pub mod ResourceFit
pub mod LeastAllocated
pub mod Taints
pub mod Simple
pub mod TopologySpread
pub mod ShipAffinity
pub mod RuntimeClass
pub mod Network
pub mod Storage
