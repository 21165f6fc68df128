-- ===== src/Cluster.antt =====
-- internal/controller/harvestercluster_controller.go: the reconciler of a HarvesterCluster.
pub mod Scope
pub mod Pools
pub mod VmPool
pub mod LoadBalancer
pub mod Delete
pub mod Connection
pub mod Fleet
pub mod Machines
pub mod CloudConfig
pub mod Endpoint
pub mod Normal
pub mod Reconcile
