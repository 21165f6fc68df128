-- ===== src/Pool.antt =====
-- util/ippool.go: the IP pools of Harvester.
pub mod Types
pub mod Store
pub mod Accounting
pub mod ById
pub mod Net
pub mod Range
pub mod Selection
pub mod Allocate
