-- ===== src/Scenarios.antt =====
-- The library at concrete inputs: a world to run the reconcilers in, and the theorems applied.
pub mod World
pub mod Pools
pub mod Machines
pub mod Clusters
pub mod Status
pub mod Creation
pub mod Rounds
pub mod Versions
