-- ===== src/Store.antt =====
-- tugboat-resource-store: resources as values of an etcd key-value store, under optimistic locks.
pub mod Etcd
pub mod Keys
pub mod Operations
pub mod Listing
pub mod Atomicity
pub mod Locking
pub mod RoundTrip
pub mod Keyspace
pub mod Examples
