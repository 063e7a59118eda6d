-- ===== src/Lib.antt =====
-- Tugboat runs virtual machines ("ships") on a cluster of nodes. Its parts are an API server over a
-- resource store, controllers and a scheduler that are clients of the API server, and an agent on
-- each node. This library models the scheduler (tugboat-scheduler), the resource store
-- (tugboat-resource-store), the client's runtime of controllers (tugboat-client/src/runtime), what
-- the controllers of deployments and replica sets decide (tugboat-controller-manager), and of the
-- API server (tugboat-apiserver) the authorizer and the deletion of a resource, with the manifests
-- that these read.
--
-- How the parts interact: the API server keeps every resource under a key of the store, which is
-- an etcd cluster, and each write names the revision that it expects. Controllers and the scheduler
-- read and write through the API server. The runtime runs a controller's reconciler for a resource
-- and again after a delay; a controller that holds something outside the cluster for a resource
-- guards it with a finalizer, and the API server only marks a resource with finalizers when it is
-- deleted. The deployment controller sets the replica counts of replica sets, the replica set
-- controller creates and deletes ships, and the scheduler gives each ship a node.
--
-- How the parts of the scheduler interact: in each round of its loop (`Scheduler::run`) a leader
-- refreshes its cache of the cluster from the API server, takes the ships that have no node, and
-- for each builds a context from the cache and asks the framework for a node. The framework filters
-- the cached nodes by its filter plugins, adds up the scores of its score plugins and takes the
-- best. The scheduler then annotates the claims that wait for a first consumer and replaces the
-- ship with one that names the node.
--
-- Files and code:
--   Base and below: Rust's Option, Result, strings, integers and maps, as far as they are used.
--     Base/Int: i64 and i32 values as integers. Base/Dict: HashMap<String, V>. Base/Float: f64.
--   Manifests and below: the messages of tugboat-resources/proto/core/v1, apps/v1 and meta/v1, with the
--     fields that the modelled parts read; Lease and Authorization are those of coordination/v1 and
--     authorization/v1.
--   Store/Etcd: the calls of the etcd client (records Etcd and Behaves). Store/Keys,
--     Store/Operations and Store/Listing: tugboat-resource-store/src/lib.rs; Store/Atomicity: what
--     `put_many` promises; Store/Locking: stale revisions and taken keys; Store/Keyspace: what
--     a list finds; Store/RoundTrip: reading back and writing back. Store/Examples and below: a
--     store that keeps a log.
--   Client/Backoff, Client/Runner and Client/Finalizer: backoff.rs, runner.rs with action.rs, and
--     finalizer.rs of tugboat-client/src/runtime. The `loop` of `process_requeue` is `requeue_round`,
--     repeated by `requeue_loop`. Client/Queue: queue.rs, whose
--     `spawn` is cut into `spawn`, `register`, `end_task` and `unregister` where tasks may be
--     interleaved. Backoff/Growth, Runner/Retries,
--     Runner/Ending, Finalizer/Ownership and Queue/Exclusion: their laws.
--   Controllers/Workload: tugboat-controller-manager/src/workload/mod.rs. Controllers/Deployment:
--     deployment/rs_ops.rs; Deployment/Exact: a step in exact integers, and when the
--     code's is the same; Deployment/Rotation and Deployment/Progress: the steps of a rolling
--     update. Controllers/ReplicaSet: replicaset/scale.rs, ship_builder.rs and status.rs;
--     ReplicaSet/Selection and ReplicaSet/Scaling: which ships are created and deleted.
--   Manifests/Names: tugboat-resources/src/validators/name.rs, where the regular expression of names
--     is written out as a test. Manifests/Resource: the metadata methods of tugboat-resources/src/lib.rs.
--   Scheduler/Context: tugboat-scheduler/src/framework/types.rs (`SchedulingContext`, its queries,
--     `parse_memory_size`); Context/Usage: its sums of usage.
--   Scheduler/Framework: framework/mod.rs and plugin.rs (`filter` is `filter_nodes`, `score` is
--     `score_nodes`, and `schedule`); Framework/Passes and Framework/Choice: their laws.
--   Scheduler/Selectors: plugins/selectors.rs; Selectors/Meaning and Selectors/Labels: what
--     a node selector and a label selector ask for.
--   Scheduler/Plugins: a module per plugin of tugboat-scheduler/src/plugins, where Simple holds
--     unschedulable.rs, image_locality.rs, node_affinity.rs and node_affinity_score.rs, and Storage
--     holds storage_fit.rs, storage_binding_ready.rs and volume_topology.rs. The laws of a plugin
--     stand in the modules below it.
--   Scheduler/Cycle: scheduler.rs and cache.rs (`schedule_ship`, `annotate_wffc_claims` as
--     `annotate_loop`, one round of `run` as `run_round`); Cycle/Claims, Cycle/Binding,
--     Cycle/Rounds and Cycle/Conditions: their laws.
--   Scheduler/LeaderElection: leader_election.rs (the `for` of `renew_lease` is `renew_loop`, with its
--     five rounds); LeaderElection/Leases: who leads.
--   Scheduler/Registry: plugins/mod.rs, the defaults of config.rs, and the loops of lib.rs that
--     build the framework; Registry/Defaults: their laws.
--   Scheduler/Guarantees: what all of these promise together.
--   Scheduler/Examples and below: the laws at a small cluster.
--   Apiserver/Rbac: tugboat-apiserver/src/auth/rbac_authorizer.rs with the types of user_info.rs and
--     authorization.rs; Rbac/Grants: what an allowed request rests on; Rbac/Accounts: the user
--     names of service accounts. The reads of the resource
--     store are the record PolicyStore; `apply_revision` only touches metadata and is left out.
--   Apiserver/Audit: tugboat-apiserver/src/auth/audit.rs, the policy (`AuditPolicy` is its list of
--     rules) and `parse_resource_path`, with `resources_for` of endpoints/resource_registry.rs over the
--     descriptors of `all_resource_apis`, which are an argument; Audit/Sensitive: what is never
--     recorded.
--   Apiserver/Handlers: `read_resource` and `delete_resource` of
--     tugboat-apiserver/src/endpoints/resource_handlers.rs; Handlers/Deletion: what is left.
--   Apiserver/Examples and below: the laws at a small policy, and at a store.
--
-- Choices: u64 values are natural numbers with the saturation of the source written out. The sums
-- of i32 counts in Controllers/Deployment and of i64 seconds in Scheduler/LeaderElection wrap, as
-- they do in a release build; elsewhere i64 values are exact integers: the scores are sums of a
-- few values between -50 per taint and 100, far from the bounds of i64. f64 is a parameter, the
-- record F64: its arithmetic is the processor's. The API server is a parameter too, the record
-- Server: it answers a request and moves to a new state. The text of a rejection is a constructor
-- of Reason with the arguments of the source's `format!`. The loops are over lists or of five
-- rounds, so no fuel is needed. The lease API and its clock are the record LeaseApi; what it
-- documents of a granted write is the record Stores. The etcd client is the record Etcd, and
-- Behaves is what etcd documents of its answers: of a request that ends in an error nothing is
-- assumed. Protobuf encoding is a field of ResourceType. The retries of the runtime go on for
-- ever unless something stops them, so `requeue_loop` takes the number of rounds to look at and
-- says where the loop stands after them. Durations are milliseconds. What the controllers call is
-- returned as a list beside the result.
--
-- Not modelled: the requests of `Cache::refresh` (its outcome and that of the election are arguments
-- of `run_round`), the watches of the store, the reconcilers
-- around the modelled decisions of the controllers and the other controllers, the other handlers of
-- the API server: they are not done yet. Logging, sleeping, configuration files, HTTP, TLS and the
-- processes and sockets of the agent, the runtimes, the operators and the tools are input and output
-- of other programs.
pub mod Base
pub mod Manifests
pub mod Store
pub mod Client
pub mod Controllers
pub mod Scheduler
pub mod Apiserver
