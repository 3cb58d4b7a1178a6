-- ===== src/Yard/Types.antt =====
-- The records of frappe_wms/services/yard.py. Times are in minutes.
use frappe_ewm.Base.{Bool, List, Name, Option, ℕ}

pub data Status : Type 0 where
  planned checked_in at_door completed checked_out no_show cancelled : Status

pub data TruckDirection : Type 0 where
  inbound outbound : TruckDirection

-- `appointment_check` and `yard_gate_check` of a warehouse; "Off" and "Allow" let everything pass.
pub data Check : Type 0 where
  pass warn block : Check

-- `WMS Dock Appointment`
pub record Appointment : Type 0 where
  pub name : Name
  pub warehouse : Name
  pub direction : TruckDirection
  pub status : Status
  pub walk_in : Bool
  pub planned_start : ℕ
  pub planned_end : ℕ
  pub door : Name
  pub carrier : Name
  pub vehicle_registration : Name
  pub trailer_number : Name
  pub driver_name : Name
  pub inbound_delivery : Name
  pub shipment : Name
  pub yard_bin : Name
  pub checkpoint : Name
  pub departure_checkpoint : Name
  pub checked_in_at : Option ℕ
  pub docked_at : Option ℕ
  pub completed_at : Option ℕ
  pub checked_out_at : Option ℕ
  pub remarks : List Name

pub data StorageRole : Type 0 where
  door_role yard_role checkpoint_role other_role : StorageRole

-- The settings of a `WMS Warehouse`; 0 stands for a number that is not set.
pub record Settings : Type 0 where
  pub active : Bool
  pub dock_slot_minutes : ℕ
  pub dock_changeover_minutes : ℕ
  pub appointment_check : Check
  pub no_show_after_minutes : ℕ
  pub yard_checkpoint_required : Bool
  pub yard_gate_check : Check
  pub seal_required : Bool

-- An active `Door Determination Rule`; no direction is "Both" or blank.
pub record DoorRule : Type 0 where
  pub warehouse : Name
  pub door : Name
  pub direction : Option TruckDirection
  pub route : Name

pub data YardError : Type 0 where
  not_permitted wrong_status no_checkpoint not_a_role other_warehouse no_seal : YardError
  ends_before_start wrong_document over_capacity no_free_door booked occupied : YardError
  no_appointment no_direction not_found : YardError

-- The appointments, and the names of those that `sync_from_appointment` of services/transport_unit.py
-- was called with.
pub record World : Type 0 where
  pub appointments : List Appointment
  pub synced : List Name

-- What a request reads and does not write.
pub record Session : Type 0 where
  pub now : ℕ
  pub has_role : Bool
  pub settings : Name → Settings
  -- the active doors of a warehouse, in their order
  pub doors : Name → List Name
  -- in the order of their priority
  pub door_rules : List DoorRule
  pub storage_bin_role : Name → StorageRole
  pub bin_warehouse : Name → Name
  pub shipment_door : Name → Name
  pub shipment_route : Name → Name
  -- `max_trucks_per_day` of a carrier in a warehouse, and the day of a time
  pub max_trucks_per_day : Name → Name → ℕ
  pub day_of : ℕ → ℕ
  -- the seal number of an appointment's transportation unit
  pub seal_number : Name → Name
  pub appointment_name : ℕ → Name
