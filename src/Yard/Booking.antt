-- ===== src/Yard/Booking.antt =====
-- The appointments of frappe_wms/services/yard.py, and how they are booked and saved.
use frappe_ewm.Base.{
  Bool, List, Name, Option, Result, [], err, false, from_option, if◌then◌else◌, length, none, not,
  ok, some, throw_if, true, ℕ, ◌++◌, ◌+◌, ◌==◌, ◌>>=◌, ◌>>◌, ◌∷◌,
}
use frappe_ewm.Yard.Doors.{validate_appointment}
use frappe_ewm.Yard.Types.{
  Appointment, Session, Status, TruckDirection, World, YardError, not_found, not_permitted, planned,
  wrong_status,
}

unfoldable pub find_appointment : Name → List Appointment → Option Appointment
find_appointment n [] = none
find_appointment n (a ∷ rest) =
    let later = find_appointment n rest in if a.name == n then some a else later

-- `doc.save`
unfoldable pub save_appointment : Appointment → List Appointment → List Appointment
save_appointment d [] = []
save_appointment d (a ∷ rest) =
    let saved = save_appointment d rest in if a.name == d.name then d ∷ rest else a ∷ saved

-- `doc.save()` with its validation.
unfoldable pub save_valid : Session → Appointment → World → Result YardError (Appointment × World)
save_valid s doc w = do
  doc' ← validate_appointment s doc w.appointments
  ok (doc', record w { appointments = save_appointment doc' w.appointments })

-- `doc.insert()` with its validation; the framework names it.
unfoldable pub insert_valid : Session → Appointment → World → Result YardError (Appointment × World)
insert_valid s doc w = do
  doc' ←
      validate_appointment s (record doc { name = s.appointment_name (length w.appointments) })
        w.appointments
  ok (doc', record w { appointments = w.appointments ++ doc' ∷ [] })

-- `sync_from_appointment(doc)`
abbrev pub sync : Appointment → World → World
sync doc w = record w { synced = w.synced ++ doc.name ∷ [] }

abbrev pub slot_minutes : Session → Name → ℕ
slot_minutes s warehouse =
    let set = (s.settings warehouse).dock_slot_minutes in if set == 0 then 60 else set

-- The arguments of `create_appointment` and of a walk-in.
pub record Truck : Type 0 where
  pub warehouse : Name
  pub direction : TruckDirection
  pub planned_start : ℕ
  pub planned_end : Option ℕ
  pub door : Name
  pub carrier : Name
  pub vehicle_registration : Name
  pub trailer_number : Name
  pub driver_name : Name
  pub inbound_delivery : Name
  pub shipment : Name
  pub remarks : List Name

unfoldable pub appointment_of : Session → Truck → Appointment
appointment_of s t = record {
  name = 0;
  warehouse = t.warehouse;
  direction = t.direction;
  status = planned;
  walk_in = false;
  planned_start = t.planned_start;
  planned_end = from_option (t.planned_start + slot_minutes s t.warehouse) t.planned_end;
  door = t.door;
  carrier = t.carrier;
  vehicle_registration = t.vehicle_registration;
  trailer_number = t.trailer_number;
  driver_name = t.driver_name;
  inbound_delivery = t.inbound_delivery;
  shipment = t.shipment;
  yard_bin = 0;
  checkpoint = 0;
  departure_checkpoint = 0;
  checked_in_at = none;
  docked_at = none;
  completed_at = none;
  checked_out_at = none;
  remarks = t.remarks;
}

-- `create_appointment`
unfoldable pub create_appointment : Session → Truck → World → Result YardError (Appointment × World)
create_appointment s t w = do
  throw_if (not s.has_role) not_permitted
  insert_valid s (appointment_of s t) w

-- `_get`
abbrev pub get_at : (Status → Bool) → Option Appointment → Result YardError Appointment
get_at allowed none = err not_found
get_at allowed (some a) = if allowed a.status then ok a else err wrong_status

unfoldable pub get_appointment :
    Name → (Status → Bool) → List Appointment → Result YardError Appointment
get_appointment n allowed apps = get_at allowed (find_appointment n apps)

abbrev pub is_planned : Status → Bool
is_planned planned = true
is_planned _ = false
