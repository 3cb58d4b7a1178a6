-- ===== src/Stock/Types.antt =====
-- The records of frappe_wms/services/stock.py: balance rows, ledger entries, posting entries, and
-- the part of the database that the stock services read and write.
use frappe_ewm.Base.{Bool, List, Name, Option, ℕ, ℤ}

-- `DIMENSIONS`: where a quantity of stock lies and what it is.
pub record Place : Type 0 where
  pub warehouse : Name
  pub product : Name
  pub batch_no : Name
  pub serial_no : Name
  pub handling_unit : Name
  pub storage_bin : Name
  pub stock_type : Name

-- `OWNER_KEYS`: a value for each of the ownership and attribute dimensions. A balance row holds a
-- name for each; a posting entry is a dict that may lack a key, hence `OwnerKeys (Option Name)`.
pub record OwnerKeys (A : Type 0) : Type 0 where
  pub stock_owner : A
  pub entitled_party : A
  pub country_of_origin : A
  pub special_stock_type : A
  pub special_stock_ref : A
  pub consolidation_group : A

-- A row of `WMS Stock Balance`. Dates are ordered numbers, `none` is a blank date.
pub record Balance : Type 0 where
  pub name : Name
  pub place : Place
  pub owner : OwnerKeys Name
  pub stock_uom : Name
  pub quantity : ℤ
  pub allocated_quantity : ℤ
  pub available_quantity : ℤ
  pub first_receipt_date : Option ℕ
  pub shelf_life_expiry_date : Option ℕ
  pub last_movement_date : Option ℕ
  pub version : ℕ

-- One element of the `entries` that `post_entries` takes.
pub record Entry : Type 0 where
  pub place : Place
  pub owner : OwnerKeys (Option Name)
  pub quantity : ℤ
  pub stock_uom : Name
  pub movement_type : Name
  pub reference_line : Name
  pub posting_datetime : Option ℕ
  pub first_receipt_date : Option ℕ
  pub shelf_life_expiry_date : Option ℕ

-- An idempotency key is a text of segments joined by ":"; here it is the list of its segments.
abbrev pub Key : Type 0
Key = List ℕ

-- A row of `WMS Stock Ledger Entry`: the posted entry and the fields that `post_entries` adds.
pub record LedgerEntry : Type 0 where
  pub name : Name
  pub posted : Entry
  pub posting_datetime : ℕ
  pub reference_doctype : Name
  pub reference_name : Name
  pub warehouse_task : Name
  pub idempotency_key : Key
  pub posting_user : Name
  pub posting_device : Name

pub data StockStatus : Type 0 where
  empty partial full : StockStatus

-- The fields of a `Handling Unit` that stock postings read and write.
pub record HandlingUnit : Type 0 where
  pub name : Name
  pub parent_hu : Name
  pub hu_type : Name
  pub tare_weight : ℤ
  pub max_payload_weight : ℤ
  pub net_weight : ℤ
  pub gross_weight : ℤ
  pub volume : ℤ
  pub stock_status : StockStatus

-- `wms_owner_stock` is the request's cached answer of `_owner_stock_exists`.
pub record Db : Type 0 where
  pub balances : List Balance
  -- in the order of creation
  pub ledger : List LedgerEntry
  pub handling_units : List HandlingUnit
  pub wms_owner_stock : Option Bool

-- What the request reads and does not write: the digest of `hashlib`, the clock, the session and
-- the master data.
pub record Env : Type 0 where
  pub sha256 : List ℕ → Name
  -- the characters of a name that is not blank
  pub text : Name → List ℕ
  pub now : ℕ
  pub session_user : Name
  -- the name that the framework gives to the n-th ledger entry
  pub ledger_name : ℕ → Name
  pub allow_negative_stock : Name → Bool
  pub gross_weight_per_unit : Name → ℕ
  pub volume_per_unit : Name → ℕ
  pub maximum_weight : Name → ℤ
  pub maximum_volume : Name → ℤ

pub data Error : Type 0 where
  ambiguous_owner insufficient_stock unbalanced serial_quantity duplicate_entry over_payload : Error
  not_positive : Error
