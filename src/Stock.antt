-- ===== src/Stock.antt =====
-- frappe_wms/services/stock.py.
pub mod Types
pub mod Naming
pub mod Rows
pub mod Owner
pub mod Balance
pub mod Measure
pub mod Posting
pub mod Transfer
pub mod Relocate
pub mod Steps
pub mod Keeps
pub mod Reconcile
pub mod Conserve
pub mod Replay
pub mod Bounds
pub mod Identity
pub mod Source
pub mod Moves
pub mod Follow
pub mod Resolved
