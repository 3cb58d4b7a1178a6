-- ===== src/Tests/Yard.antt =====
-- The yard of frappe_wms/services/yard.py, at concrete inputs.
use frappe_ewm.Base.{Name, [], err, false, none, ok, refl, some, true, ◌+◌, ◌∷◌, ◌≡◌}
use frappe_ewm.Yard.Booking.{find_appointment, get_appointment, save_appointment, save_valid, sync}
use frappe_ewm.Yard.Door.{complete, docked, door_for, to_door}
use frappe_ewm.Yard.Doors.{
  check_carrier_capacity, has_occupant, is_occupant, require_storage_role, validate_active,
  validate_appointment, validate_door, validate_status,
}
use frappe_ewm.Yard.History.{Reaches-IsYard, and_then, completed_one, drove_to_door, nothing_yet}
use frappe_ewm.Yard.Occupied.{IsYard}
use frappe_ewm.Yard.Types.{
  Appointment, Session, Status, World, at_door, checked_in, completed, door_role, inbound, occupied,
  pass,
}

abbrev truck_at : Name → Status → Name → Appointment
truck_at n status door = record {
  name = n;
  warehouse = 1;
  direction = inbound;
  status = status;
  walk_in = false;
  planned_start = 480;
  planned_end = 540;
  door = door;
  carrier = 0;
  vehicle_registration = n;
  trailer_number = 0;
  driver_name = 0;
  inbound_delivery = 0;
  shipment = 0;
  yard_bin = 0;
  checkpoint = 0;
  departure_checkpoint = 0;
  checked_in_at = some 470;
  docked_at = none;
  completed_at = none;
  checked_out_at = none;
  remarks = [];
}

abbrev gate : Session
gate = record {
  now = 500;
  has_role = true;
  settings = λ w. record {
    active = true;
    dock_slot_minutes = 60;
    dock_changeover_minutes = 10;
    appointment_check = pass;
    no_show_after_minutes = 30;
    yard_checkpoint_required = false;
    yard_gate_check = pass;
    seal_required = false;
  };
  doors = λ w. 31 ∷ 32 ∷ [];
  door_rules = [];
  storage_bin_role = λ b. door_role;
  bin_warehouse = λ b. 1;
  shipment_door = λ n. 0;
  shipment_route = λ n. 0;
  max_trucks_per_day = λ c w. 0;
  day_of = λ t. 0;
  seal_number = λ n. 0;
  appointment_name = λ n. n + 50;
}

-- A truck stands at door 31, another waits in the yard.
abbrev morning : World
morning = record {
  appointments = truck_at 1 at_door 31 ∷ truck_at 2 checked_in 0 ∷ [];
  synced = [];
}

abbrev unloaded : Appointment
unloaded = record (truck_at 1 at_door 31) { status = completed; completed_at = some 500 }

abbrev door_31_free : World
door_31_free = record morning { appointments = unloaded ∷ truck_at 2 checked_in 0 ∷ [] }

abbrev next_truck : Appointment
next_truck = docked gate 31 (truck_at 2 checked_in 0)

abbrev next_docked : World
next_docked = sync next_truck (record morning { appointments = unloaded ∷ next_truck ∷ [] })

door_31_taken : to_door gate 2 31 morning ≡ err occupied
unfolding to_door get_appointment find_appointment door_for has_occupant is_occupant
door_31_taken = refl

truck_1_done : complete gate 1 morning ≡ ok (unloaded, door_31_free)
unfolding complete get_appointment find_appointment save_appointment
truck_1_done = refl

truck_2_docks : to_door gate 2 31 door_31_free ≡ ok (next_truck, next_docked)
unfolding to_door get_appointment find_appointment door_for has_occupant is_occupant save_valid
    validate_appointment docked validate_status check_carrier_capacity validate_active validate_door
    require_storage_role save_appointment
truck_2_docks = refl

Reaches-IsYard_example : IsYard next_docked.appointments
Reaches-IsYard_example =
    Reaches-IsYard
      (and_then
        (and_then nothing_yet (completed_one gate 1 {out = (unloaded, door_31_free)} truck_1_done))
        (drove_to_door gate 2 31 {out = (next_truck, next_docked)} truck_2_docks))
      (((refl, refl), tt), (tt, tt))
