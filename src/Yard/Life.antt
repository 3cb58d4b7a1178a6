-- ===== src/Yard/Life.antt =====
-- The life of the appointments of frappe_wms/services/yard.py, call by call.
use frappe_ewm.Base.{
  >>-eq-ok, >>=-eq-ok, All, Bool, Bool-cases, List, Name, Option, [], ap, false, inl, inr, is_set,
  leb, length, map, none, not, ok, refl, some, subst, sym, throw_if-eq-ok, true, ◌&&◌, ◌++◌, ◌==◌,
  ◌∙◌, ◌∷◌, ◌≡◌, ◌⊎◌,
}
use frappe_ewm.Yard.Booking.{insert_valid, save_appointment, save_valid}
use frappe_ewm.Yard.Door.{docked}
use frappe_ewm.Yard.Doors.{
  booked_door, check_carrier_capacity, clashes, has_occupant, is_active, is_at_door, is_checked_in,
  is_outbound, require_storage_role, validate_active, validate_appointment, validate_door,
  validate_status,
}
use frappe_ewm.Yard.Occupied.{
  Apart, Apart-sym, IsYard, append-IsYard, away-MayReplace, free-MayReplace, save-IsYard,
}
use frappe_ewm.Yard.Types.{
  Appointment, Session, World, booked, door_role, ends_before_start, no_free_door, over_capacity,
  wrong_document,
}

-- Validating an appointment may give it a door, and changes nothing else.
abbrev pub SameTruck : Appointment → Appointment → Type 0
SameTruck a b = (b.name ≡ a.name) × (b.status ≡ a.status)

validate_door-SameTruck :
    (s : Session) (doc : Appointment) (apps : List Appointment) (o : Option Name)
    {out : Appointment}
    → validate_door s doc apps o ≡ ok out
    → (d : Name) × (o ≡ some d) × (out ≡ record doc { door = d })
unfolding validate_door
validate_door-SameTruck s doc apps none goes = cc goes
validate_door-SameTruck s doc apps (some d) {out} goes =
    let (_, g1) = throw_if-eq-ok (not (is_set d)) no_free_door _ {b = out} goes in
    let (_, g2) = >>-eq-ok (require_storage_role s d door_role) _ {b = out} g1 in
    let (_, g3) =
      throw_if-eq-ok
        (not (is_at_door doc.status)
          && clashes s d doc.planned_start doc.planned_end doc.warehouse doc.name apps)
        booked (ok (record doc { door = d })) {b = out} g2 in
    let same : record doc { door = d } ≡ out = cc g3 in (d, refl, sym same)

-- A validated appointment is the same truck, at its own door if it had one.
abbrev Validated : Appointment → Appointment → Type 0
Validated doc out = SameTruck doc out × ((is_set doc.door ≡ false) ⊎ (out.door ≡ doc.door))

validate_active-Validated :
    (s : Session) (doc : Appointment) (apps : List Appointment) {out : Appointment}
    → validate_active s doc apps ≡ ok out
    → Validated doc out
unfolding validate_active
validate_active-Validated s doc apps {out} goes = elim (Bool-cases (is_set doc.door)) [
  | inl has_door ↦
      let (d, is_d, same) =
        validate_door-SameTruck s doc apps (some doc.door) {out = out} (rw has_door at goes) in
      let own : doc.door ≡ d = cc is_d in
      ((ap (λ a. a.name) same, ap (λ a. a.status) same), inr (ap (λ a. a.door) same ∙ sym own))
  | inr no_door ↦ elim (Bool-cases (doc.walk_in && is_checked_in doc.status)) [
    | inl waits ↦
        let same : doc ≡ out = cc (rw (no_door, waits) at goes) in
        ((ap (λ a. a.name) (sym same), ap (λ a. a.status) (sym same)), inl no_door)
    | inr needs ↦
        let (d, is_d, same) =
          validate_door-SameTruck s doc apps (booked_door s doc apps) {out = out}
            (rw (no_door, needs) at goes) in
        ((ap (λ a. a.name) same, ap (λ a. a.status) same), inl no_door)
  ]
]

validate_status-Validated :
    (s : Session) (doc : Appointment) (apps : List Appointment) (b : Bool) {out : Appointment}
    → validate_status s doc apps b ≡ ok out
    → Validated doc out
unfolding validate_status check_carrier_capacity
validate_status-Validated s doc apps false {out} goes =
    let same : doc ≡ out = cc goes in subst (Validated doc) same ((refl, refl), inr refl)
validate_status-Validated s doc apps true {out} goes =
    let (_, g) = throw_if-eq-ok _ over_capacity (validate_active s doc apps) {b = out} goes in
    validate_active-Validated s doc apps g

validate_appointment-Validated :
    (s : Session) (doc : Appointment) (apps : List Appointment) {out : Appointment}
    → validate_appointment s doc apps ≡ ok out
    → Validated doc out
unfolding validate_appointment
validate_appointment-Validated s doc apps {out} goes =
    let (_, g1) =
      throw_if-eq-ok (leb doc.planned_end doc.planned_start) ends_before_start _ {b = out} goes in
    let (_, g2) =
      throw_if-eq-ok (not (is_outbound doc.direction) && is_set doc.shipment) wrong_document _
        {b = out} g1 in
    let (_, g3) =
      throw_if-eq-ok (is_outbound doc.direction && is_set doc.inbound_delivery) wrong_document _
        {b = out} g2 in
    validate_status-Validated s doc apps (is_active doc.status) g3

-- Saving a truck that is not at a door.
pub save_valid-IsYard :
    (s : Session) (doc : Appointment) (w : World) {out : Appointment × World}
    → IsYard w.appointments
    → is_at_door doc.status ≡ false
    → save_valid s doc w ≡ ok out
    → IsYard out.1.appointments
unfolding save_valid
save_valid-IsYard s doc w {out} yard away goes =
    let (d, valid, ends) =
      >>=-eq-ok (validate_appointment s doc w.appointments)
        (λ x. ok (x, record w { appointments = save_appointment x w.appointments })) {b = out}
        goes in
    let facts = validate_appointment-Validated s doc w.appointments valid in
    let same : (d, record w { appointments = save_appointment d w.appointments }) ≡ out = cc ends in
    subst (λ o. IsYard o.1.appointments) same
      (save-IsYard d w.appointments yard
        (away-MayReplace d w.appointments (ap (λ x. is_at_door x) facts.0.1 ∙ away)))

pub insert_valid-IsYard :
    (s : Session) (doc : Appointment) (w : World) {out : Appointment × World}
    → IsYard w.appointments
    → All (λ a. a.name == s.appointment_name (length w.appointments) ≡ false) w.appointments
    → is_at_door doc.status ≡ false
    → insert_valid s doc w ≡ ok out
    → IsYard out.1.appointments
unfolding insert_valid
insert_valid-IsYard s doc w {out} yard fresh away goes =
    let n = s.appointment_name (length w.appointments) in
    let (d, valid, ends) =
      >>=-eq-ok (validate_appointment s (record doc { name = n }) w.appointments)
        (λ x. ok (x, record w { appointments = w.appointments ++ x ∷ [] })) {b = out} goes in
    let facts = validate_appointment-Validated s (record doc { name = n }) w.appointments valid in
    let same : (d, record w { appointments = w.appointments ++ d ∷ [] }) ≡ out = cc ends in
    subst (λ o. IsYard o.1.appointments) same
      (append-IsYard w.appointments d yard
        (subst (λ m. All (λ a. a.name == m ≡ false) w.appointments) (sym facts.0.0) fresh)
        (ap (λ x. is_at_door x) facts.0.1 ∙ away))

-- Driving to a door that is empty.
pub dock-IsYard :
    (s : Session) (door : Name) (doc : Appointment) (w : World) {out : Appointment × World}
    → IsYard w.appointments
    → is_set door ≡ true
    → has_occupant door doc.name w.appointments ≡ false
    → save_valid s (docked s door doc) w ≡ ok out
    → IsYard out.1.appointments
unfolding save_valid docked
dock-IsYard s door doc w {out} yard named free goes =
    let (d, valid, ends) =
      >>=-eq-ok (validate_appointment s (docked s door doc) w.appointments)
        (λ x. ok (x, record w { appointments = save_appointment x w.appointments })) {b = out}
        goes in
    let facts = validate_appointment-Validated s (docked s door doc) w.appointments valid in
    let at_it : d.door ≡ door = elim facts.1 [ inl unset ↦ cc (named, unset) | inr own ↦ own ] in
    let same : (d, record w { appointments = save_appointment d w.appointments }) ≡ out = cc ends in
    subst (λ o. IsYard o.1.appointments) same
      (save-IsYard d w.appointments yard
        (free-MayReplace d w.appointments (rw (at_it, facts.0.0) free)))

-- A change of each appointment that moves no truck to a door.
pub map-IsYard :
    (f : Appointment → Appointment) (apps : List Appointment)
    → ((a : Appointment)
        → ((f a) ≡ a) ⊎ (((f a).name ≡ a.name) × (is_at_door (f a).status ≡ false)))
    → IsYard apps
    → IsYard (map f apps)
map-IsYard f [] leaves yard = tt
map-IsYard f (a ∷ rest) leaves yard = (others rest yard.0, map-IsYard f rest leaves yard.1)
  where
    stay : (x y : Appointment) → Apart x y → Apart (f x) y
    stay x y h = elim (leaves x) [
      | inl same ↦ subst (λ z. Apart z y) (sym same) h
      | inr (named, away) ↦ (ap (λ n. n == y.name) named ∙ h.0, rw away refl)
    ]

    both : (x y : Appointment) → Apart x y → Apart (f x) (f y)
    both x y h = stay x (f y) (Apart-sym (f y) x (stay y x (Apart-sym x y h)))

    others : (xs : List Appointment) → All (Apart a) xs → All (Apart (f a)) (map f xs)
    others [] h = tt
    others (x ∷ xs) h = (both a x h.0, others xs h.1)
