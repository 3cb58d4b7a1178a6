-- ===== src/Replenishment/Types.antt =====
-- The records of frappe_wms/services/replenishment.py.
use frappe_ewm.Base.{Bool, List, Name, Result, ℕ, ℤ}
use frappe_ewm.Stock.Types.{Balance}

-- `Replenishment Rule`
pub record Rule : Type 0 where
  pub name : Name
  pub active : Bool
  pub warehouse : Name
  pub product : Name
  pub storage_bin : Name
  pub stock_type : Name
  pub source_storage_type : Name
  pub minimum_quantity : ℤ
  pub target_quantity : ℤ
  pub priority : Name

pub data RequestStatus : Type 0 where
  request_open request_in_process request_completed request_cancelled : RequestStatus

-- `Warehouse Request` of the type "Replenish".
pub record Request : Type 0 where
  pub name : Name
  pub warehouse : Name
  pub product : Name
  pub requested_quantity : ℤ
  pub stock_uom : Name
  pub source_bin : Name
  pub source_hu : Name
  pub batch_no : Name
  pub serial_no : Name
  pub destination_bin : Name
  pub stock_type : Name
  pub reference_doctype : Name
  pub reference_name : Name
  pub reference_line : Name
  pub process_type : Name
  pub priority : Name
  pub status : RequestStatus

-- The fields of a `Storage Bin` that are read.
pub record Bin : Type 0 where
  pub name : Name
  pub warehouse : Name
  pub storage_type : Name
  pub removal_blocked : Bool

-- The fields of a `Warehouse Task` that are read.
pub record Task : Type 0 where
  pub name : Name
  pub warehouse : Name
  pub product : Name
  pub source_bin : Name
  pub stock_type_from : Name
  pub stock_uom : Name

pub data ReplenishError : Type 0 where
  not_permitted not_positive_quantity no_source : ReplenishError
  -- what `create_tasks_for_request` throws
  planning : Name → ReplenishError

-- The balances, and the requests in the order of creation.
pub record World : Type 0 where
  pub balances : List Balance
  pub requests : List Request

-- What a call reads and does not write, and the services it calls: `determine_process_type` of
-- services/determination.py for the activity "Replenish" of a product and stock type, and
-- `create_tasks_for_request` of services/task.py, which returns the name of a task.
pub record Session : Type 0 where
  pub has_role : Bool
  pub user : Name
  pub rules : List Rule
  pub bins : List Bin
  pub uom_of_product : Name → Name
  pub determine_process_type : Name → Name → Name → Name
  pub request_name : ℕ → Name
  pub create_tasks_for_request : Name → World → Result ReplenishError (Name × World)
