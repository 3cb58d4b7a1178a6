-- ===== src/CrossDock.antt =====
-- frappe_wms/services/cross_dock.py: received goods that go straight to open deliveries.
pub mod Types
pub mod Demand
pub mod Plan
pub mod Matched
