-- ===== src/Yard/Gate.antt =====
-- The check-in of a truck at the gate, in frappe_wms/services/yard.py.
use frappe_ewm.Base.{
  Bool, List, Name, Option, Result, [], err, foldl, if◌then◌else◌, is_set, keep, ltb, none, not, ok,
  or_name, some, throw_if, true, ◌&&◌, ◌==◌, ◌>>=◌, ◌>>◌,
}
use frappe_ewm.Yard.Booking.{
  appointment_of, get_appointment, insert_valid, is_planned, save_valid, sync,
}
use frappe_ewm.Yard.Doors.{require_storage_role, resolve_checkpoint}
use frappe_ewm.Yard.Types.{
  Appointment, Check, Session, TruckDirection, World, YardError, block, checked_in, no_appointment,
  no_direction, not_permitted, pass, warn, yard_role,
}

-- What the gate writes down about the truck.
pub record Arrival : Type 0 where
  pub carrier : Name
  pub trailer_number : Name
  pub driver_name : Name
  pub vehicle_registration : Name
  pub yard_bin : Name
  pub checkpoint : Name

unfoldable pub arrived : Session → Arrival → Appointment → Appointment
arrived s g doc = record doc {
  carrier = or_name g.carrier doc.carrier;
  trailer_number = or_name g.trailer_number doc.trailer_number;
  driver_name = or_name g.driver_name doc.driver_name;
  vehicle_registration = or_name g.vehicle_registration doc.vehicle_registration;
  status = checked_in;
  checked_in_at = some s.now;
  yard_bin = g.yard_bin;
  checkpoint = g.checkpoint;
}

abbrev pub spot_is_yard : Session → Name → Result YardError (Unit {0})
spot_is_yard s bin = if is_set bin then require_storage_role s bin yard_role else ok tt

-- `check_in` of a truck with an appointment.
unfoldable pub check_in_planned :
    Session → Arrival → Appointment → World → Result YardError (Appointment × World)
check_in_planned s g doc w = do
  resolve_checkpoint s doc.warehouse g.checkpoint
  spot_is_yard s g.yard_bin
  (doc', w') ← save_valid s (arrived s g doc) w
  ok (doc', sync doc' w')

unfoldable pub walk_in_of : Session → Name → TruckDirection → Name → Appointment
walk_in_of s warehouse direction registration =
    record (appointment_of s (record {
      warehouse = warehouse;
      direction = direction;
      planned_start = s.now;
      planned_end = none;
      door = 0;
      carrier = 0;
      vehicle_registration = registration;
      trailer_number = 0;
      driver_name = 0;
      inbound_delivery = 0;
      shipment = 0;
      remarks = [];
    })) { walk_in = true }

-- What the gate answers.
pub data GateResult : Type 0 where
  needs_confirmation : GateResult
  let_in : Appointment → World → GateResult

unfoldable pub walk_in_enters :
    Session → Arrival → Appointment → World → Result YardError GateResult
walk_in_enters s g doc w = do
  resolve_checkpoint s doc.warehouse g.checkpoint
  spot_is_yard s g.yard_bin
  (doc', w') ← insert_valid s (arrived s g doc) w
  ok (let_in doc' (sync doc' w'))

unfoldable pub walk_in_named :
    Session → Arrival → Name → Option TruckDirection → World → Result YardError GateResult
walk_in_named s g warehouse none w = err no_direction
walk_in_named s g warehouse (some d) w =
    walk_in_enters s g (walk_in_of s warehouse d g.vehicle_registration) w

-- By the warehouse's rule for trucks without an appointment.
unfoldable pub check_in_walk_in :
    Session
    → Arrival
    → Name
    → Option TruckDirection
    → Bool
    → World
    → Check
    → Result YardError GateResult
check_in_walk_in s g warehouse direction confirmed w block = err no_appointment
check_in_walk_in s g warehouse direction confirmed w warn =
    if confirmed then walk_in_named s g warehouse direction w else ok needs_confirmation
check_in_walk_in s g warehouse direction confirmed w pass = walk_in_named s g warehouse direction w

abbrev pub earlier : Option Appointment → Appointment → Option Appointment
earlier none a = some a
earlier (some b) a = if ltb a.planned_start b.planned_start then some a else some b

abbrev pub is_of_vehicle : Name → Name → Appointment → Bool
is_of_vehicle warehouse registration a =
    (a.warehouse == warehouse) && (a.vehicle_registration == registration) && is_planned a.status

-- The truck's earliest planned appointment, by its registration.
unfoldable pub planned_for : Name → Name → List Appointment → Name
planned_for warehouse registration apps =
    if is_set registration
    then name_or_blank (foldl earlier none (keep (is_of_vehicle warehouse registration) apps))
    else 0
  where
    name_or_blank : Option Appointment → Name
    name_or_blank none = 0
    name_or_blank (some a) = a.name

unfoldable pub check_in_named : Session → Arrival → Name → World → Result YardError GateResult
check_in_named s g n w = do
  doc ← get_appointment n is_planned w.appointments
  (doc', w') ← check_in_planned s g doc w
  ok (let_in doc' w')

-- `check_in`
unfoldable pub check_in :
    Session
    → Name
    → Name
    → Option TruckDirection
    → Arrival
    → Bool
    → World
    → Result YardError GateResult
check_in s warehouse appointment direction g confirmed w =
    let n = or_name appointment (planned_for warehouse g.vehicle_registration w.appointments) in
    throw_if (not s.has_role) not_permitted
    >> (if is_set n
        then check_in_named s g n w
        else check_in_walk_in s g warehouse direction confirmed w
            (s.settings warehouse).appointment_check)
