-- ===== src/Manifests.antt =====
-- The resources of tugboat-resources/proto: one record for a message, with the fields that the
-- modelled components read or write. `repeated` is a list, `optional` and every message field is
-- an option (as prost generates them), and a map is a `Dict`.
-- Left out are the fields that no modelled component reads or writes: they are only carried.
pub mod Meta
pub mod Resource
pub mod Names
pub mod Labels
pub mod Node
pub mod Ship
pub mod Network
pub mod Storage
pub mod Authorization
pub mod Lease
pub mod Workload
