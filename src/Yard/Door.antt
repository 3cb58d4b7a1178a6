-- ===== src/Yard/Door.antt =====
-- The way of a truck to its door and out of the yard, in frappe_wms/services/yard.py.
use frappe_ewm.Base.{
  Bool, List, Name, Option, Result, [], err, false, if◌then◌else◌, is_set, ltb, map, none, not, ok,
  option_or, or_name, some, throw_if, true, ℕ, ◌&&◌, ◌++◌, ◌+◌, ◌==◌, ◌>>=◌, ◌>>◌, ◌∷◌,
}
use frappe_ewm.Yard.Booking.{get_appointment, is_planned, save_appointment, save_valid, sync}
use frappe_ewm.Yard.Doors.{
  free_door, has_occupant, is_at_door, require_seal, resolve_checkpoint, route_of,
}
use frappe_ewm.Yard.Types.{
  Appointment, Session, Status, World, YardError, at_door, cancelled, checked_in, checked_out,
  completed, no_free_door, no_show, not_permitted, occupied, planned,
}

abbrev pub is_reaching : Status → Bool
is_reaching planned = true
is_reaching checked_in = true
is_reaching _ = false

abbrev pub later_of : ℕ → ℕ → ℕ
later_of a b = if ltb a b then b else a

abbrev pub found_door : Option Name → Result YardError Name
found_door none = err no_free_door
found_door (some d) = if is_set d then ok d else err no_free_door

-- The door that the truck drives to: the one given, its own, or one that is free now.
unfoldable pub door_for : Session → Name → Appointment → List Appointment → Result YardError Name
door_for s door doc apps =
    let wanted = or_name door doc.door in
    if is_set wanted
    then ok wanted
    else found_door (
        free_door s doc.warehouse s.now (later_of doc.planned_end (s.now + 30)) doc.name true
          doc.direction (route_of s doc) apps)

unfoldable pub docked : Session → Name → Appointment → Appointment
docked s door doc = record doc {
  door = door;
  status = at_door;
  docked_at = some s.now;
  checked_in_at = option_or doc.checked_in_at (some s.now);
}

-- `to_door`
unfoldable pub to_door : Session → Name → Name → World → Result YardError (Appointment × World)
to_door s n door w = do
  throw_if (not s.has_role) not_permitted
  doc ← get_appointment n is_reaching w.appointments
  d ← door_for s door doc w.appointments
  throw_if (has_occupant d doc.name w.appointments) occupied
  (doc', w') ← save_valid s (docked s d doc) w
  ok (doc', sync doc' w')

-- `complete`
unfoldable pub complete : Session → Name → World → Result YardError (Appointment × World)
complete s n w = do
  throw_if (not s.has_role) not_permitted
  doc ← get_appointment n is_at_door w.appointments
  let doc' = record doc { status = completed; completed_at = some s.now }
  ok (doc', record w { appointments = save_appointment doc' w.appointments })

abbrev pub is_inside : Status → Bool
is_inside checked_in = true
is_inside at_door = true
is_inside completed = true
is_inside _ = false

unfoldable pub left_yard : Session → Name → Appointment → Appointment
left_yard s checkpoint doc = record doc {
  status = checked_out;
  checked_out_at = some s.now;
  departure_checkpoint = checkpoint;
  completed_at = option_or doc.completed_at (if is_at_door doc.status then some s.now else none);
}

-- `check_out`
unfoldable pub check_out : Session → Name → Name → World → Result YardError (Appointment × World)
check_out s n checkpoint w = do
  throw_if (not s.has_role) not_permitted
  doc ← get_appointment n is_inside w.appointments
  resolve_checkpoint s doc.warehouse checkpoint
  require_seal s doc.warehouse doc.direction (s.seal_number doc.name)
  let doc' = left_yard s checkpoint doc
  ok (doc', sync doc' (record w { appointments = save_appointment doc' w.appointments }))

-- `cancel`
unfoldable pub cancel : Session → Name → Name → World → Result YardError (Appointment × World)
cancel s n reason w = do
  throw_if (not s.has_role) not_permitted
  doc ← get_appointment n is_planned w.appointments
  let doc' = record doc {
    status = cancelled;
    remarks = if is_set reason then doc.remarks ++ reason ∷ [] else doc.remarks;
  }
  ok (doc', record w { appointments = save_appointment doc' w.appointments })

abbrev pub is_underway : Status → Bool
is_underway checked_in = true
is_underway at_door = true
is_underway _ = false

unfoldable pub depart : Session → Name → Appointment → Appointment
depart s shipment a =
    if (a.shipment == shipment) && is_underway a.status
    then record a { status = completed; completed_at = some s.now }
    else a

-- `on_shipment_departed`
unfoldable pub on_shipment_departed : Session → Name → World → World
on_shipment_departed s shipment w = record w {
  appointments = map (depart s shipment) w.appointments;
}

unfoldable pub miss : Session → Appointment → Appointment
miss s a =
    let w = s.settings a.warehouse in
    let minutes = w.no_show_after_minutes in
    if w.active
      && not (minutes == 0)
      && is_planned a.status
      && ltb (a.planned_start + minutes) s.now
    then record a { status = no_show }
    else a

-- `mark_no_shows`
unfoldable pub mark_no_shows : Session → World → World
mark_no_shows s w = record w { appointments = map (miss s) w.appointments }
