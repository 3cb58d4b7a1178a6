-- ===== src/Wave.antt =====
-- frappe_wms/services/wave.py: waves of outbound deliveries.
pub mod Types
pub mod Plan
pub mod Generate
pub mod Parts
