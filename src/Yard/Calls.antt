-- ===== src/Yard/Calls.antt =====
-- What each call of frappe_wms/services/yard.py leaves of the doors.
use frappe_ewm.Base.{
  >>-eq-ok, >>=-eq-ok, All, Bool, Bool-cases, List, Name, Option, Result, [], ap, err, false,
  if◌then◌else◌, inl, inr, is_set, length, none, not, ok, or_name, refl, some, subst, sym,
  throw_if-eq-ok, true, ◌++◌, ◌+◌, ◌==◌, ◌>>=◌, ◌∷◌, ◌≡◌,
}
use frappe_ewm.Yard.Booking.{
  Truck, appointment_of, create_appointment, get_appointment, is_planned, save_appointment,
  save_valid, sync,
}
use frappe_ewm.Yard.Door.{
  cancel, check_out, complete, docked, door_for, found_door, is_inside, is_reaching, later_of,
  left_yard, to_door,
}
use frappe_ewm.Yard.Doors.{
  free_door, has_occupant, is_at_door, require_seal, resolve_checkpoint, route_of,
}
use frappe_ewm.Yard.Life.{dock-IsYard, insert_valid-IsYard}
use frappe_ewm.Yard.Occupied.{IsYard, away-MayReplace, save-IsYard}
use frappe_ewm.Yard.Types.{
  Appointment, Session, Status, World, YardError, cancelled, completed, not_permitted, occupied,
}

abbrev pub IsFresh : Session → World → Type 0
IsFresh s w = All (λ a. a.name == s.appointment_name (length w.appointments) ≡ false) w.appointments

abbrev pub appointments_of : Result YardError (Appointment × World) → List Appointment
appointments_of (err e) = []
appointments_of (ok x) = x.1.appointments

-- A change of the found appointment to a status away from the doors.
settled-IsYard :
    (s : Session) (n : Name) (allowed : Status → Bool) (f : Appointment → Appointment) (w : World)
    (after : Appointment → Result YardError (Appointment × World)) {out : Appointment × World}
    → ((a : Appointment) → is_at_door (f a).status ≡ false)
    → ((a : Appointment)
        → after a ≡ ok out
        → out.1.appointments ≡ save_appointment (f a) w.appointments)
    → IsYard w.appointments
    → (get_appointment n allowed w.appointments >>= after) ≡ ok out
    → IsYard out.1.appointments
settled-IsYard s n allowed f w after {out} away saves yard goes =
    let (a, _, ends) = >>=-eq-ok (get_appointment n allowed w.appointments) after {b = out} goes in
    subst IsYard (sym (saves a ends))
      (save-IsYard (f a) w.appointments yard (away-MayReplace (f a) w.appointments (away a)))

pub complete-IsYard :
    (s : Session) (n : Name) (w : World) {out : Appointment × World}
    → IsYard w.appointments
    → complete s n w ≡ ok out
    → IsYard out.1.appointments
unfolding complete
complete-IsYard s n w {out} yard goes =
    let (_, g1) = throw_if-eq-ok (not s.has_role) not_permitted _ {b = out} goes in
    settled-IsYard s n is_at_door (λ a. record a { status = completed; completed_at = some s.now })
      w _ {out = out} (λ a. refl) (λ a ends. ap (λ r. appointments_of r) (sym ends)) yard g1

pub cancel-IsYard :
    (s : Session) (n reason : Name) (w : World) {out : Appointment × World}
    → IsYard w.appointments
    → cancel s n reason w ≡ ok out
    → IsYard out.1.appointments
unfolding cancel
cancel-IsYard s n reason w {out} yard goes =
    let (_, g1) = throw_if-eq-ok (not s.has_role) not_permitted _ {b = out} goes in
    settled-IsYard s n is_planned
      (λ a. record a {
        status = cancelled;
        remarks = if is_set reason then a.remarks ++ reason ∷ [] else a.remarks;
      })
      w _ {out = out} (λ a. refl) (λ a ends. ap (λ r. appointments_of r) (sym ends)) yard g1

pub check_out-IsYard :
    (s : Session) (n checkpoint : Name) (w : World) {out : Appointment × World}
    → IsYard w.appointments
    → check_out s n checkpoint w ≡ ok out
    → IsYard out.1.appointments
unfolding check_out left_yard
check_out-IsYard s n checkpoint w {out} yard goes =
    let (_, g1) = throw_if-eq-ok (not s.has_role) not_permitted _ {b = out} goes in
    settled-IsYard s n is_inside (left_yard s checkpoint) w _ {out = out} (λ a. refl)
      (λ a ends.
        let (_, g2) = >>-eq-ok (resolve_checkpoint s a.warehouse checkpoint) _ {b = out} ends in
        let (_, g3) =
          >>-eq-ok (require_seal s a.warehouse a.direction (s.seal_number a.name)) _ {b = out} g2 in
        ap (λ r. appointments_of r) (sym g3))
      yard g1

pub create_appointment-IsYard :
    (s : Session) (t : Truck) (w : World) {out : Appointment × World}
    → IsYard w.appointments
    → IsFresh s w
    → create_appointment s t w ≡ ok out
    → IsYard out.1.appointments
unfolding create_appointment appointment_of
create_appointment-IsYard s t w {out} yard fresh goes =
    let (_, g1) = throw_if-eq-ok (not s.has_role) not_permitted _ {b = out} goes in
    insert_valid-IsYard s (appointment_of s t) w yard fresh refl g1

found_door-set : (o : Option Name) {d : Name} → found_door o ≡ ok d → is_set d ≡ true
found_door-set none goes = cc goes
found_door-set (some x) {d} goes = elim (Bool-cases (is_set x)) [
  | inl named ↦ let same : x ≡ d = cc (rw named at goes) in subst (λ n. is_set n ≡ true) same named
  | inr blank ↦ cc (rw blank at goes)
]

door_for-set :
    (s : Session) (door : Name) (doc : Appointment) (apps : List Appointment) {d : Name}
    → door_for s door doc apps ≡ ok d
    → is_set d ≡ true
unfolding door_for
door_for-set s door doc apps {d} goes = elim (Bool-cases (is_set (or_name door doc.door))) [
  | inl given ↦
      let same : or_name door doc.door ≡ d = cc (rw given at goes) in
      subst (λ n. is_set n ≡ true) same given
  | inr not_given ↦
      found_door-set
        (free_door s doc.warehouse s.now (later_of doc.planned_end (s.now + 30)) doc.name true
          doc.direction (route_of s doc) apps)
        (rw not_given at goes)
]

pub to_door-IsYard :
    (s : Session) (n door : Name) (w : World) {out : Appointment × World}
    → IsYard w.appointments
    → to_door s n door w ≡ ok out
    → IsYard out.1.appointments
unfolding to_door
to_door-IsYard s n door w {out} yard goes =
    let (_, g1) = throw_if-eq-ok (not s.has_role) not_permitted _ {b = out} goes in
    let (doc, _, g2) = >>=-eq-ok (get_appointment n is_reaching w.appointments) _ {b = out} g1 in
    let (d, chosen, g3) = >>=-eq-ok (door_for s door doc w.appointments) _ {b = out} g2 in
    let (free, g4) =
      throw_if-eq-ok (has_occupant d doc.name w.appointments) occupied _ {b = out} g3 in
    let (saved, saves, ends) =
      >>=-eq-ok (save_valid s (docked s d doc) w) (λ x. ok (x.0, sync x.0 x.1)) {b = out} g4 in
    let same : (saved.0, sync saved.0 saved.1) ≡ out = cc ends in
    subst (λ o. IsYard o.1.appointments) same
      (dock-IsYard s d doc w yard (door_for-set s door doc w.appointments chosen) free saves)
