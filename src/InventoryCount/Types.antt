-- ===== src/InventoryCount/Types.antt =====
-- The records of frappe_wms/services/inventory_count.py: a `WMS Physical Inventory Count` with its
-- lines, and the tables that its operations read and write.
use frappe_ewm.Base.{Bool, List, Name, Option, ℕ, ℤ}
use frappe_ewm.Stock.Types.{Db, Env, Error}

pub data RowStatus : Type 0 where
  row_open row_counted row_posted pending_recount pending_approval : RowStatus

pub data CountStatus : Type 0 where
  draft counting counted under_review posted cancelled : CountStatus

-- `WMS Physical Inventory Count Item`
pub record Row : Type 0 where
  pub name : Name
  pub product : Name
  pub batch_no : Name
  pub serial_no : Name
  pub handling_unit : Name
  pub storage_bin : Name
  pub stock_type : Name
  pub stock_uom : Name
  pub book_quantity : ℤ
  pub counted_quantity : Option ℤ
  pub variance : Option ℤ
  pub status : RowStatus
  pub counted_by : Name
  pub recount_count : ℕ
  pub tolerance_group : Name

pub record Count : Type 0 where
  pub name : Name
  pub warehouse : Name
  pub storage_bin : Name
  pub storage_type : Name
  pub product : Name
  pub status : CountStatus
  pub items : List Row
  pub blocked_bins : List Name
  pub counted_by : Name
  pub posted_by : Name
  pub posted_at : Option ℕ
  pub approved_by : Name

-- The fields of a `Storage Bin` that a count reads and writes.
pub record Bin : Type 0 where
  pub name : Name
  pub warehouse : Name
  pub storage_type : Name
  pub removal_blocked : Bool

-- The bins of a draft `Warehouse Task` in an open status.
pub record OpenTask : Type 0 where
  pub source_bin : Name
  pub destination_bin : Name

-- `Count Tolerance Group`. The percentage is in millionths.
pub record ToleranceGroup : Type 0 where
  pub name : Name
  pub warehouse : Name
  pub item_group : Name
  pub tolerance_percentage : ℕ
  pub tolerance_quantity : ℕ
  pub requires_recount : Bool
  pub requires_approval : Bool

-- The stock, the bins, and the rows that `dispatch("count_rows", ...)` was called with, call by call.
pub record World : Type 0 where
  pub stock : Db
  pub bins : List Bin
  pub dispatched : List (List Name)

-- What a request reads and does not write.
pub record Session : Type 0 where
  pub env : Env
  pub user : Name
  pub now : ℕ
  -- one of the roles that `require_role` asks for
  pub has_role : Bool
  pub open_tasks : List OpenTask
  -- the active groups in the order of their priority
  pub tolerance_groups : List ToleranceGroup
  pub item_group : Name → Name
  pub stock_uom : Name → Name
  -- `recount_different_user` of the warehouse
  pub recount_different_user : Name → Bool
  -- the name that the framework gives to the n-th line
  pub row_name : ℕ → Name

pub data CountError : Type 0 where
  not_permitted already_started nothing_in_scope bin_busy not_open : CountError
  not_positive_found serial_not_one negative_count same_counter : CountError
  not_counted not_awaiting_approval not_cancellable reserved : CountError
  posting : Error → CountError
