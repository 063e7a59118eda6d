-- ===== src/Scheduler.antt =====
-- The crate tugboat-scheduler: it assigns a node to each ship that has none.
pub mod Context
pub mod Selectors
pub mod Framework
pub mod Plugins
pub mod Cycle
pub mod LeaderElection
pub mod Registry
mod Examples
pub mod Guarantees
