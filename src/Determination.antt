-- ===== src/Determination.antt =====
-- frappe_wms/services/determination.py: the rules that find process types and destination bins.
pub mod Types
pub mod Rules
pub mod Strategy
pub mod Destination
pub mod Chosen
pub mod Allowed
pub mod Destined
