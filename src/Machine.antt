-- ===== src/Machine.antt =====
-- internal/controller/harvestermachine_controller.go: the reconciler of HarvesterMachine.
pub mod Scope
pub mod Address
pub mod Workload
pub mod Create
pub mod Normal
pub mod Delete
pub mod Reconcile
