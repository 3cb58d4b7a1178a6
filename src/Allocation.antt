-- ===== src/Allocation.antt =====
-- frappe_wms/services/allocation.py: reserving stock for outbound deliveries.
pub mod Types
pub mod Candidates
pub mod Allocate
pub mod Reserves
pub mod Delivery
