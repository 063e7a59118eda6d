-- ===== src/Client.antt =====
-- tugboat-client: the runtime that controllers run their reconcilers in.
pub mod Backoff
pub mod Runner
pub mod Finalizer
pub mod Queue
mod Examples
