-- ===== src/Scheduler.antt =====
-- The package scheduler/: nodes, clusters, the Mesos callbacks, reconciliation and the HTTP API.
pub mod ProcessState
pub mod Config
pub mod Node
pub mod Explorer
pub mod Cluster
pub mod Core
pub mod Offers
pub mod Reconcile
pub mod Server
pub mod System
pub mod Start
