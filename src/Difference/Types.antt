-- ===== src/Difference/Types.antt =====
-- The records of frappe_wms/services/difference.py.
use frappe_ewm.Base.{Bool, List, Name, Option, ℕ, ℤ}
use frappe_ewm.Stock.Types.{Db, Env, Error, OwnerKeys}

pub data Direction : Type 0 where
  over short : Direction

pub data DifferenceStatus : Type 0 where
  open_difference cleared : DifferenceStatus

-- The fields of a `Warehouse Task` that a difference takes over.
pub record Task : Type 0 where
  pub name : Name
  pub warehouse : Name
  pub task_type : Name
  pub product : Name
  pub batch_no : Name
  pub serial_no : Name
  pub stock_uom : Name
  pub stock_type_from : Name
  pub stock_type_to : Name
  pub planned_quantity : ℤ
  pub owner : OwnerKeys Name

-- `WMS Task Difference`
pub record TaskDifference : Type 0 where
  pub name : Name
  pub warehouse : Name
  pub warehouse_task : Name
  pub task_type : Name
  pub product : Name
  pub stock_uom : Name
  pub batch_no : Name
  pub serial_no : Name
  pub direction : Direction
  pub planned_quantity : ℤ
  pub difference_quantity : ℤ
  pub stock_type : Name
  pub storage_bin : Name
  pub exception_code : Name
  pub clearance_remarks : Name
  pub difference_category : Name
  pub status : DifferenceStatus
  pub cleared_by : Name
  pub cleared_at : Option ℕ
  pub cleared_to_bin : Name

pub data DifferenceError : Type 0 where
  not_permitted no_difference_bin already_cleared other_direction not_found : DifferenceError
  posting : Error → DifferenceError

-- What a request reads and does not write.
pub record Session : Type 0 where
  pub env : Env
  pub user : Name
  pub now : ℕ
  pub has_role : Bool
  pub default_difference_bin : Name → Name
  -- of a `WMS Exception Code`
  pub exception_category : Name → Name
  -- the name that the framework gives to the n-th difference
  pub difference_name : ℕ → Name

-- The stock, the differences in the order of creation, and the names of the differences that
-- `dispatch("over_difference", doc)` was called with.
pub record World : Type 0 where
  pub stock : Db
  pub differences : List TaskDifference
  pub dispatched : List Name
