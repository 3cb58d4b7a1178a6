-- ===== src/ErpQueue.antt =====
-- frappe_wms/services/erp_sync_queue.py.
pub mod Types
pub mod Operations
pub mod Queue
pub mod Order
pub mod Inline
pub mod Calls
pub mod History
pub mod Logs
pub mod Refused
