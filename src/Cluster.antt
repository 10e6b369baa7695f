-- ===== src/Cluster.antt =====
-- api/colonel-byte.dev/v1alpha1/cluster: the hosts of a cluster and the sweeps over them.
pub mod Hosts
pub mod Sweep
mod Examples
pub mod Concurrency
pub mod Rewrites
pub mod Registries
pub mod Firewall
