-- ===== src/Api.antt =====
-- api/v1beta1: the resource types, their conditions, the errors of the Kubernetes API and the
-- library interfaces that the controllers call on them.
pub mod Meta
pub mod Condition
pub mod Machine
pub mod Cluster
