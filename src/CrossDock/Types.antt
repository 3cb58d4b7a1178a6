-- ===== src/CrossDock/Types.antt =====
-- The records of frappe_wms/services/cross_dock.py. Quantities are in millionths, days are numbers.
use frappe_ewm.Base.{Bool, List, Name, ℕ}

-- An `Outbound Delivery Item` with the fields of its delivery.
pub record DemandLine : Type 0 where
  pub name : Name
  pub delivery : Name
  pub warehouse : Name
  pub docstatus : ℕ
  pub item : Name
  pub required_stock_type : Name
  pub required_country_of_origin : Name
  pub stock_owner : Name
  pub entitled_party : Name
  pub staging_bin : Name
  pub delivery_date : ℕ
  pub creation : ℕ
  pub requested_quantity : ℕ
  pub allocated_quantity : ℕ

-- What `find_cross_dock_demand` returns for a line.
pub record Match : Type 0 where
  pub delivery : Name
  pub delivery_item : Name
  pub staging_bin : Name
  pub quantity : ℕ

pub data AllocationStatus : Type 0 where
  not_allocated partially_allocated fully_allocated : AllocationStatus

pub data PlanStatus : Type 0 where
  planned done cancelled : PlanStatus

-- `Inbound Cross Dock Plan`
pub record PlanRow : Type 0 where
  pub name : Name
  pub parent : Name
  pub inbound_delivery_item : Name
  pub item : Name
  pub outbound_delivery : Name
  pub outbound_delivery_item : Name
  pub staging_bin : Name
  pub planned_quantity : ℕ
  pub consumed_quantity : ℕ
  pub status : PlanStatus

-- A row of an inbound delivery's `items`.
pub record InboundItem : Type 0 where
  pub name : Name
  pub item : Name
  pub expected_stock_type : Name
  pub expected_quantity : ℕ
  pub received_quantity : ℕ

pub record Inbound : Type 0 where
  pub name : Name
  pub warehouse : Name
  pub docstatus : ℕ
  pub closed_short : Bool
  pub stock_owner : Name
  pub entitled_party : Name
  pub items : List InboundItem

-- What is asked for: the arguments of `find_cross_dock_demand`.
pub record Supply : Type 0 where
  pub warehouse : Name
  pub item : Name
  pub stock_type : Name
  pub quantity : ℕ
  pub owner : Name
  pub party : Name

pub data CrossDockError : Type 0 where
  not_permitted not_open not_found : CrossDockError

-- The lines, the allocation status of each delivery that was set, and the plan. `recounted` are the
-- deliveries that `_update_delivery_picking_status` of services/task.py was called with.
pub record World : Type 0 where
  pub lines : List DemandLine
  pub allocation_status : List (Name × AllocationStatus)
  pub recounted : List Name
  pub plan : List PlanRow

-- The settings of a warehouse; a horizon of 0 is none.
pub record Session : Type 0 where
  pub has_role : Bool
  pub today : ℕ
  pub opportunistic_cross_docking : Name → Bool
  pub cross_dock_horizon_days : Name → ℕ
  -- the stock type "AVAILABLE"
  pub available_type : Name
  pub plan_name : ℕ → Name
