-- ===== src/Tests.antt =====
-- Theorems with hypotheses at concrete inputs of frappe_wms.
pub mod Data
pub mod Stock
pub mod Removal
pub mod Allocation
pub mod Locks
pub mod Numbering
pub mod Picking
pub mod WarehouseOrder
pub mod Concurrency
pub mod DeliverySplit
pub mod Relocate
pub mod BinRules
mod ErpQueue
mod InventoryCount
mod PostingChange
mod Difference
mod Cartonization
mod Replenishment
mod CycleCount
mod Yard
mod Wave
mod CrossDock
mod Determination
