-- ===== src/PostingChange.antt =====
-- frappe_wms/services/posting_change.py: documents that change the identity of stock in its place.
pub mod Types
pub mod Change
pub mod Guards
pub mod Sides
pub mod Moved
