-- ===== src/Allocation/Types.antt =====
-- The rows that frappe_wms/services/allocation.py reads and writes beside the balances: outbound
-- delivery lines, stock allocations, and the master data that its filters ask for.
use frappe_ewm.Base.{Bool, List, Name, Option, ℕ, ℤ}
use frappe_ewm.Removal.{RemovalError, Rule, Strategy}
use frappe_ewm.Stock.Types.{Balance}

-- A row of `Outbound Delivery Item`.
pub record Line : Type 0 where
  pub name : Name
  pub item : Name
  pub requested_quantity : ℤ
  pub allocated_quantity : ℤ
  pub picked_quantity : ℤ
  pub packed_quantity : ℤ
  pub issued_quantity : ℤ
  pub required_stock_type : Name
  pub required_serial_no : Name
  pub required_batch : Name
  pub required_country_of_origin : Name
  pub sales_order : Name
  -- the JSON object of the field `required_characteristics`
  pub required_characteristics : List (Name × Name)

pub data AllocationStatus : Type 0 where
  allocated partially_picked picked cancelled : AllocationStatus

-- A row of `Stock Allocation`.
pub record StockAllocation : Type 0 where
  pub name : Name
  pub outbound_delivery : Name
  pub outbound_delivery_item : Name
  pub stock_balance : Name
  pub allocated_quantity : ℤ
  pub picked_quantity : ℤ
  pub status : AllocationStatus

pub data DeliveryAllocation : Type 0 where
  fully_allocated partially_allocated not_allocated : DeliveryAllocation

pub record Delivery : Type 0 where
  pub name : Name
  pub warehouse : Name
  pub customer : Name
  pub stock_owner : Name
  pub entitled_party : Name
  pub submitted : Bool
  pub items : List Line
  pub allocation_status : DeliveryAllocation

-- The tables of an allocation request.
pub record Db : Type 0 where
  pub balances : List Balance
  pub allocations : List StockAllocation

-- What the filters read: removal rules, shelf life, handling units, bins and storage types.
pub record Master : Type 0 where
  -- the user has one of the roles, and may write the delivery
  pub has_role : Bool
  pub may_write : Name → Bool
  pub item_group : Name → Name
  pub removal_rules : Name → List Rule
  pub sort_value : Name → Balance → Option ℕ
  pub registry : Name → Option Strategy
  pub minimum_remaining_shelf_life : Name → ℕ
  pub customer_remaining_shelf_life : Name → ℕ
  pub today : ℕ
  pub batches_with : Name → Name → List Name
  -- the status is one of "Blocked", "Cancelled", "Shipped" and "Loaded"
  pub hu_not_allocatable : Name → Bool
  pub removal_blocked : Name → Bool
  pub storage_type_of : Name → Name
  -- the storage type's role is one of `NON_ALLOCATABLE_STORAGE_ROLES`
  pub type_not_allocatable : Name → Bool
  -- the storage types of the removal search sequence for an item and a stock type, if one is found
  pub removal_sequence : Name → Name → Name → Option (List Name)
  -- the name that the framework gives to the n-th stock allocation
  pub allocation_name : ℕ → Name

pub data AllocationError : Type 0 where
  not_permitted not_submitted : AllocationError
  removal_error : RemovalError → AllocationError
