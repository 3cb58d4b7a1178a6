-- ===== src/Yard/Enter.antt =====
-- What `check_in`, `on_shipment_departed` and `mark_no_shows` of frappe_wms/services/yard.py leave of
-- the doors.
use frappe_ewm.Base.{
  >>-eq-ok, >>=-eq-ok, Bool, Bool-cases, Name, Option, false, inl, inr, is_set, ltb, none, not, ok,
  or_name, refl, some, subst, throw_if-eq-ok, true, ◌&&◌, ◌+◌, ◌==◌, ◌≡◌, ◌⊎◌,
}
use frappe_ewm.Yard.Booking.{get_appointment, insert_valid, is_planned, save_valid, sync}
use frappe_ewm.Yard.Calls.{IsFresh}
use frappe_ewm.Yard.Door.{depart, is_underway, miss}
use frappe_ewm.Yard.Doors.{is_at_door, resolve_checkpoint}
use frappe_ewm.Yard.Gate.{
  Arrival, GateResult, arrived, check_in, check_in_named, check_in_planned, check_in_walk_in,
  let_in, needs_confirmation, planned_for, spot_is_yard, walk_in_enters, walk_in_named, walk_in_of,
}
use frappe_ewm.Yard.Life.{insert_valid-IsYard, save_valid-IsYard}
use frappe_ewm.Yard.Occupied.{IsYard}
use frappe_ewm.Yard.Types.{
  Appointment, Check, Session, TruckDirection, World, block, not_permitted, pass, warn,
}

-- The appointments after a gate that answered.
abbrev pub GateIsYard : World → GateResult → Type 0
GateIsYard w needs_confirmation = Unit
GateIsYard w (let_in doc w') = IsYard w'.appointments

check_in_named-IsYard :
    (s : Session) (g : Arrival) (n : Name) (w : World) {out : GateResult}
    → IsYard w.appointments
    → check_in_named s g n w ≡ ok out
    → GateIsYard w out
unfolding check_in_named check_in_planned arrived
check_in_named-IsYard s g n w {out} yard goes =
    let (doc, _, g1) = >>=-eq-ok (get_appointment n is_planned w.appointments) _ {b = out} goes in
    let (entered, enters, ends) =
      >>=-eq-ok (check_in_planned s g doc w) (λ x. ok (let_in x.0 x.1)) {b = out} g1 in
    let (_, g2) =
      >>-eq-ok (resolve_checkpoint s doc.warehouse g.checkpoint) _ {b = entered} enters in
    let (_, g3) = >>-eq-ok (spot_is_yard s g.yard_bin) _ {b = entered} g2 in
    let (saved, saves, last) =
      >>=-eq-ok (save_valid s (arrived s g doc) w) (λ x. ok (x.0, sync x.0 x.1)) {b = entered} g3 in
    let same : (saved.0, sync saved.0 saved.1) ≡ entered = cc last in
    let all_in : let_in entered.0 entered.1 ≡ out = cc ends in
    subst (GateIsYard w) all_in (
      subst (λ e. IsYard e.1.appointments) same
        (save_valid-IsYard s (arrived s g doc) w yard refl saves))

walk_in_named-IsYard :
    (s : Session) (g : Arrival) (warehouse : Name) (d : Option TruckDirection) (w : World)
    {out : GateResult}
    → IsYard w.appointments
    → IsFresh s w
    → walk_in_named s g warehouse d w ≡ ok out
    → GateIsYard w out
unfolding walk_in_named walk_in_enters arrived
walk_in_named-IsYard s g warehouse none w yard fresh goes = cc goes
walk_in_named-IsYard s g warehouse (some d) w {out} yard fresh goes =
    let doc = walk_in_of s warehouse d g.vehicle_registration in
    let (_, g2) = >>-eq-ok (resolve_checkpoint s doc.warehouse g.checkpoint) _ {b = out} goes in
    let (_, g3) = >>-eq-ok (spot_is_yard s g.yard_bin) _ {b = out} g2 in
    let (saved, saves, ends) =
      >>=-eq-ok (insert_valid s (arrived s g doc) w) (λ x. ok (let_in x.0 (sync x.0 x.1))) {b = out}
        g3 in
    let same : let_in saved.0 (sync saved.0 saved.1) ≡ out = cc ends in
    subst (GateIsYard w) same (insert_valid-IsYard s (arrived s g doc) w yard fresh refl saves)

check_in_walk_in-IsYard :
    (s : Session) (g : Arrival) (warehouse : Name) (d : Option TruckDirection) (confirmed : Bool)
    (w : World) (rule : Check) {out : GateResult}
    → IsYard w.appointments
    → IsFresh s w
    → check_in_walk_in s g warehouse d confirmed w rule ≡ ok out
    → GateIsYard w out
unfolding check_in_walk_in
check_in_walk_in-IsYard s g warehouse d confirmed w block yard fresh goes = cc goes
check_in_walk_in-IsYard s g warehouse d true w warn yard fresh goes =
    walk_in_named-IsYard s g warehouse d w yard fresh goes
check_in_walk_in-IsYard s g warehouse d false w warn {out} yard fresh goes =
    let same : needs_confirmation ≡ out = cc goes in subst (GateIsYard w) same tt
check_in_walk_in-IsYard s g warehouse d confirmed w pass yard fresh goes =
    walk_in_named-IsYard s g warehouse d w yard fresh goes

pub check_in-IsYard :
    (s : Session) (warehouse appointment : Name) (d : Option TruckDirection) (g : Arrival)
    (confirmed : Bool) (w : World) {out : GateResult}
    → IsYard w.appointments
    → IsFresh s w
    → check_in s warehouse appointment d g confirmed w ≡ ok out
    → GateIsYard w out
unfolding check_in
check_in-IsYard s warehouse appointment d g confirmed w {out} yard fresh goes =
    let n = or_name appointment (planned_for warehouse g.vehicle_registration w.appointments) in
    let (_, g1) = throw_if-eq-ok (not s.has_role) not_permitted _ {b = out} goes in
    elim (Bool-cases (is_set n)) [
      | inl named ↦ check_in_named-IsYard s g n w yard (rw named at g1)
      | inr no_name ↦
          check_in_walk_in-IsYard s g warehouse d confirmed w
            (s.settings warehouse).appointment_check yard fresh (rw no_name at g1)
    ]

pub depart-away :
    (s : Session) (n : Name) (a : Appointment)
    → (depart s n a ≡ a)
      ⊎ (((depart s n a).name ≡ a.name) × (is_at_door (depart s n a).status ≡ false))
unfolding depart
depart-away s n a = elim (Bool-cases ((a.shipment == n) && is_underway a.status)) [
  | inl goes ↦ rw goes (inr (refl, refl))
  | inr stays ↦ rw stays (inl refl)
]

pub miss-away :
    (s : Session) (a : Appointment)
    → (miss s a ≡ a) ⊎ (((miss s a).name ≡ a.name) × (is_at_door (miss s a).status ≡ false))
unfolding miss
miss-away s a =
    let w = s.settings a.warehouse in
    let minutes = w.no_show_after_minutes in
    elim (Bool-cases (
      w.active
      && not (minutes == 0)
      && is_planned a.status
      && ltb (a.planned_start + minutes) s.now)) [
        | inl late ↦ rw late (inr (refl, refl))
        | inr waits ↦ rw waits (inl refl)
      ]
