-- ===== src/Yard/Doors.antt =====
-- Which doors are free, in frappe_wms/services/yard.py.
use frappe_ewm.Base.{
  Bool, List, Name, Option, Result, [], any, contains, err, false, find, if◌then◌else◌, is_set,
  keep, leb, length, ltb, map, none, not, ok, some, throw_if, true, ℕ, ◌&&◌, ◌++◌, ◌+◌, ◌==◌, ◌>>◌,
  ◌||◌, ◌∷◌,
}
use frappe_ewm.Yard.Types.{
  Appointment, DoorRule, Session, Status, StorageRole, TruckDirection, YardError, at_door, booked,
  cancelled, checked_in, checkpoint_role, door_role, ends_before_start, inbound, no_checkpoint,
  no_free_door, no_seal, no_show, not_a_role, other_role, other_warehouse, outbound, over_capacity,
  planned, wrong_document, yard_role,
}

abbrev role_code : StorageRole → ℕ
role_code door_role = 0
role_code yard_role = 1
role_code checkpoint_role = 2
role_code other_role = 3

-- `require_storage_role` of frappe_wms/utils.py
unfoldable pub require_storage_role : Session → Name → StorageRole → Result YardError (Unit {0})
require_storage_role s bin role =
    throw_if (not (role_code (s.storage_bin_role bin) == role_code role)) not_a_role

-- `resolve_checkpoint`: what is thrown when the gate bin is missing or wrong.
unfoldable pub resolve_checkpoint : Session → Name → Name → Result YardError (Unit {0})
resolve_checkpoint s warehouse checkpoint =
    if is_set checkpoint
    then (require_storage_role s checkpoint checkpoint_role
        >> throw_if (not (s.bin_warehouse checkpoint == warehouse)) other_warehouse)
    else throw_if (s.settings warehouse).yard_checkpoint_required no_checkpoint

abbrev pub is_outbound : TruckDirection → Bool
is_outbound inbound = false
is_outbound outbound = true

-- `require_seal`
unfoldable pub require_seal : Session → Name → TruckDirection → Name → Result YardError (Unit {0})
require_seal s warehouse direction seal =
    throw_if ((s.settings warehouse).seal_required && is_outbound direction && not (is_set seal))
      no_seal

-- `ACTIVE`
abbrev pub is_active : Status → Bool
is_active planned = true
is_active checked_in = true
is_active at_door = true
is_active _ = false

abbrev pub is_at_door : Status → Bool
is_at_door at_door = true
is_at_door _ = false

-- Two slots that leave less than the changeover time between them.
abbrev pub overlaps : ℕ → ℕ → ℕ → ℕ → ℕ → Bool
overlaps gap start end start' end' = ltb start' (end + gap) && ltb start (end' + gap)

-- `_clashes`: whether an appointment is in the way of a slot at a door.
unfoldable pub clashes_with : ℕ → Name → ℕ → ℕ → Name → Appointment → Bool
clashes_with gap door start end exclude a =
    (a.door == door)
    && is_active a.status
    && not (a.name == exclude)
    && overlaps gap start end a.planned_start a.planned_end

unfoldable pub clashes : Session → Name → ℕ → ℕ → Name → Name → List Appointment → Bool
clashes s door start end warehouse exclude =
    any (clashes_with (s.settings warehouse).dock_changeover_minutes door start end exclude)

unfoldable pub is_occupant : Name → Name → Appointment → Bool
is_occupant door exclude a = (a.door == door) && is_at_door a.status && not (a.name == exclude)

-- `_occupant`: whether a truck is at the door right now.
unfoldable pub has_occupant : Name → Name → List Appointment → Bool
has_occupant door exclude = any (is_occupant door exclude)

abbrev same_direction : Option TruckDirection → TruckDirection → Bool
same_direction none d = true
same_direction (some inbound) d = not (is_outbound d)
same_direction (some outbound) d = is_outbound d

unfoldable pub names_door : Name → TruckDirection → Name → DoorRule → Bool
names_door warehouse direction route r =
    (r.warehouse == warehouse)
    && same_direction r.direction direction
    && (not (is_set r.route) || (r.route == route))

unfoldable pub without : List Name → List Name → List Name
without seen [] = []
without seen (d ∷ ds) =
    let rest = without (d ∷ seen) ds in
    let skipped = without seen ds in if contains d seen then skipped else d ∷ rest

-- `determined_doors`
unfoldable pub determined_doors : Session → Name → TruckDirection → Name → List Name
determined_doors s warehouse direction route =
    without [] (map (λ r. r.door) (keep (names_door warehouse direction route) s.door_rules))

unfoldable pub is_free : Session → Name → ℕ → ℕ → Name → Bool → List Appointment → Name → Bool
is_free s warehouse start end exclude right_now apps d =
    not (clashes s d start end warehouse exclude apps)
    && not (right_now && has_occupant d exclude apps)

-- `free_door`
unfoldable pub free_door :
    Session → Name → ℕ → ℕ → Name → Bool → TruckDirection → Name → List Appointment → Option Name
free_door s warehouse start end exclude right_now direction route apps =
    let preferred = determined_doors s warehouse direction route in
    find (is_free s warehouse start end exclude right_now apps)
      (preferred ++ keep (λ d. not (contains d preferred)) (s.doors warehouse))

abbrev is_gone : Status → Bool
is_gone no_show = true
is_gone cancelled = true
is_gone _ = false

-- A truck that counts against its carrier's capacity on the day.
unfoldable pub counts_on : Session → Appointment → Appointment → Bool
counts_on s doc a =
    (a.warehouse == doc.warehouse)
    && (a.carrier == doc.carrier)
    && not (a.name == doc.name)
    && not a.walk_in
    && not (is_gone a.status)
    && (s.day_of a.planned_start == s.day_of doc.planned_start)

-- `_check_carrier_capacity`
unfoldable pub check_carrier_capacity :
    Session → Appointment → List Appointment → Result YardError (Unit {0})
check_carrier_capacity s doc apps =
    let limit = s.max_trucks_per_day doc.warehouse doc.carrier in
    throw_if
      (is_set doc.carrier
        && not doc.walk_in
        && ltb 0 limit
        && leb limit (length (keep (counts_on s doc) apps)))
      over_capacity

abbrev pub is_checked_in : Status → Bool
is_checked_in checked_in = true
is_checked_in _ = false

unfoldable pub route_of : Session → Appointment → Name
route_of s doc = if is_set doc.shipment then s.shipment_route doc.shipment else 0

-- The door that a booking without one gets: its shipment's, or a free one.
unfoldable pub booked_door : Session → Appointment → List Appointment → Option Name
booked_door s doc apps =
    let shipping = if is_set doc.shipment then s.shipment_door doc.shipment else 0 in
    if is_set shipping
    then some shipping
    else free_door s doc.warehouse doc.planned_start doc.planned_end doc.name false doc.direction
        (route_of s doc) apps

-- The end of `validate_appointment`, for an appointment with a door.
unfoldable pub validate_door :
    Session → Appointment → List Appointment → Option Name → Result YardError Appointment
validate_door s doc apps none = err no_free_door
validate_door s doc apps (some d) = do
  throw_if (not (is_set d)) no_free_door
  require_storage_role s d door_role
  throw_if
      (not (is_at_door doc.status)
        && clashes s d doc.planned_start doc.planned_end doc.warehouse doc.name apps)
      booked
  ok (record doc { door = d })

unfoldable pub validate_active :
    Session → Appointment → List Appointment → Result YardError Appointment
validate_active s doc apps =
    if not (is_set doc.door) && doc.walk_in && is_checked_in doc.status
    then ok doc
    else validate_door s doc apps
        (if is_set doc.door then some doc.door else booked_door s doc apps)

unfoldable pub validate_status :
    Session → Appointment → List Appointment → Bool → Result YardError Appointment
validate_status s doc apps false = ok doc
validate_status s doc apps true = check_carrier_capacity s doc apps >> validate_active s doc apps

-- `validate_appointment`
unfoldable pub validate_appointment :
    Session → Appointment → List Appointment → Result YardError Appointment
validate_appointment s doc apps = do
  throw_if (leb doc.planned_end doc.planned_start) ends_before_start
  throw_if (not (is_outbound doc.direction) && is_set doc.shipment) wrong_document
  throw_if (is_outbound doc.direction && is_set doc.inbound_delivery) wrong_document
  validate_status s doc apps (is_active doc.status)
