-- ===== src/PostingChange/Types.antt =====
-- The records of frappe_wms/services/posting_change.py.
use frappe_ewm.Base.{Bool, List, Name, Option, ℕ, ℤ}
use frappe_ewm.Stock.Types.{Db, Env, Error, OwnerKeys}

pub data ChangeStatus : Type 0 where
  draft_change posted_change cancelled_change : ChangeStatus

-- `WMS Posting Change`. `owner` are the fields of `OWNER_KEYS`; `to_owner` those they change to, whose
-- consolidation group is never set.
pub record Change : Type 0 where
  pub name : Name
  pub warehouse : Name
  pub product : Name
  pub batch_no : Name
  pub serial_no : Name
  pub handling_unit : Name
  pub storage_bin : Name
  pub from_stock_type : Name
  pub to_stock_type : Name
  pub quantity : ℤ
  pub stock_uom : Name
  pub reason : Name
  pub status : ChangeStatus
  pub owner : OwnerKeys Name
  pub to_product : Name
  pub to_batch_no : Name
  pub to_owner : OwnerKeys Name
  pub erpnext_stock_entry : Name
  pub posted_by : Name
  pub posted_at : Option ℕ

-- One side of a change: what `sides` returns.
pub record Identity : Type 0 where
  pub product : Name
  pub batch_no : Name
  pub stock_type : Name
  pub owner : OwnerKeys Name

pub data ChangeError : Type 0 where
  not_permitted already_posted nothing_changes serial_fixed not_managed wrong_batch : ChangeError
  half_special not_free mixed not_posted no_balance : ChangeError
  posting : Error → ChangeError

-- What a request reads and does not write. `mixing_violations` says whether the bin, with the changed
-- product, stock type and batch, would be mixed; `dispatch` is what the queue makes of the document.
pub record Session : Type 0 where
  pub env : Env
  pub user : Name
  pub now : ℕ
  pub has_role : Bool
  pub uom_of_product : Name → Name
  pub is_warehouse_managed : Name → Bool
  pub batch_item : Name → Name
  pub mixing_violations : Name → Option Name → Option Name → Option Name → Db → Bool
  -- the Stock Entry has `docstatus` 1
  pub is_submitted : Name → Bool
  pub new_name : Name

-- The stock, and the names of the documents that `dispatch("posting_change", doc)` was called with and
-- of the Stock Entries that a cancellation cancels.
pub record World : Type 0 where
  pub stock : Db
  pub dispatched : List Name
  pub cancelled_entries : List Name
