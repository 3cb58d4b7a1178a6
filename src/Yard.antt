-- ===== src/Yard.antt =====
-- frappe_wms/services/yard.py: dock appointments and the way of a truck through the yard.
pub mod Types
pub mod Doors
pub mod Gate
pub mod Occupied
pub mod Life
pub mod History
pub mod Calls
pub mod Door
pub mod Enter
pub mod Booking
