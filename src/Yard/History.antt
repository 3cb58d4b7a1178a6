-- ===== src/Yard/History.antt =====
-- Sequences of calls of frappe_wms/services/yard.py.
use frappe_ewm.Base.{Bool, Name, Option, ok, ◌≡◌}
use frappe_ewm.Yard.Booking.{Truck, create_appointment}
use frappe_ewm.Yard.Calls.{
  IsFresh, cancel-IsYard, check_out-IsYard, complete-IsYard, create_appointment-IsYard,
  to_door-IsYard,
}
use frappe_ewm.Yard.Door.{
  cancel, check_out, complete, depart, mark_no_shows, miss, on_shipment_departed, to_door,
}
use frappe_ewm.Yard.Enter.{check_in-IsYard, depart-away, miss-away}
use frappe_ewm.Yard.Gate.{Arrival, check_in, let_in}
use frappe_ewm.Yard.Life.{map-IsYard}
use frappe_ewm.Yard.Occupied.{IsYard}
use frappe_ewm.Yard.Types.{Appointment, Session, TruckDirection, World}

-- One call that goes through; the name of a new appointment is not that of another.
pub data Step : World → World → Type 0 where
  booked_one :
      (s : Session) (t : Truck) {w : World} {out : Appointment × World}
      → IsFresh s w
      → create_appointment s t w ≡ ok out
      → Step w out.1
  let_through :
      (s : Session) (warehouse appointment : Name) (d : Option TruckDirection) (g : Arrival)
      (confirmed : Bool) (doc : Appointment) {w w' : World}
      → IsFresh s w
      → check_in s warehouse appointment d g confirmed w ≡ ok (let_in doc w')
      → Step w w'
  drove_to_door :
      (s : Session) (n door : Name) {w : World} {out : Appointment × World}
      → to_door s n door w ≡ ok out
      → Step w out.1
  completed_one :
      (s : Session) (n : Name) {w : World} {out : Appointment × World}
      → complete s n w ≡ ok out
      → Step w out.1
  drove_off :
      (s : Session) (n checkpoint : Name) {w : World} {out : Appointment × World}
      → check_out s n checkpoint w ≡ ok out
      → Step w out.1
  called_off :
      (s : Session) (n reason : Name) {w : World} {out : Appointment × World}
      → cancel s n reason w ≡ ok out
      → Step w out.1
  shipment_departed : (s : Session) (n : Name) {w : World} → Step w (on_shipment_departed s n w)
  no_shows : (s : Session) {w : World} → Step w (mark_no_shows s w)

pub data Reaches : World → World → Type 0 where
  nothing_yet : {w : World} → Reaches w w
  and_then : {w w1 w2 : World} → Reaches w w1 → Step w1 w2 → Reaches w w2

Step-IsYard : {w w' : World} → Step w w' → IsYard w.appointments → IsYard w'.appointments
unfolding on_shipment_departed mark_no_shows
Step-IsYard (booked_one s t {w} fresh goes) yard = create_appointment-IsYard s t w yard fresh goes
Step-IsYard (let_through s warehouse appointment d g confirmed doc {w} fresh goes) yard =
    check_in-IsYard s warehouse appointment d g confirmed w yard fresh goes
Step-IsYard (drove_to_door s n door {w} goes) yard = to_door-IsYard s n door w yard goes
Step-IsYard (completed_one s n {w} goes) yard = complete-IsYard s n w yard goes
Step-IsYard (drove_off s n checkpoint {w} goes) yard = check_out-IsYard s n checkpoint w yard goes
Step-IsYard (called_off s n reason {w} goes) yard = cancel-IsYard s n reason w yard goes
Step-IsYard (shipment_departed s n {w}) yard =
    map-IsYard (depart s n) w.appointments (depart-away s n) yard
Step-IsYard (no_shows s {w}) yard = map-IsYard (miss s) w.appointments (miss-away s) yard

-- Through any sequence of calls that go through, where each new appointment gets a name that no
-- other has, the appointments have different names and no two trucks stand at one door, if that
-- held before.
pub Reaches-IsYard : {w w' : World} → Reaches w w' → IsYard w.appointments → IsYard w'.appointments
Reaches-IsYard nothing_yet yard = yard
Reaches-IsYard (and_then before last) yard = Step-IsYard last (Reaches-IsYard before yard)
