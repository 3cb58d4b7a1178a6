-- ===== src/BinRules.antt =====
-- frappe_wms/services/bin_rules.py: whether a storage bin may take what is put away.
pub mod Types
pub mod Checks
pub mod Capacity
