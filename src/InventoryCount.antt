-- ===== src/InventoryCount.antt =====
-- frappe_wms/services/inventory_count.py: physical inventory counts.
pub mod Types
pub mod Record
pub mod Post
pub mod Blocking
pub mod Outcome
pub mod Variance
pub mod Snapshot
