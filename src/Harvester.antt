-- ===== src/Harvester.antt =====
-- The API servers that the controllers call: the clientset of Harvester (pkg/clientset), the
-- management cluster's client and the workload cluster's. What a server answers may depend on all
-- that was called before, and on what others do meanwhile: a response is an arbitrary function of
-- the history of calls, so a theorem about a controller holds against every behaviour of the
-- servers.
pub mod Types
pub mod Cluster
