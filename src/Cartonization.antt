-- ===== src/Cartonization.antt =====
-- frappe_wms/services/cartonization.py: how many shipping handling units a delivery needs.
pub mod Plan
pub mod Ends
pub mod Total
pub mod Rooms
pub mod Within
pub mod Types
