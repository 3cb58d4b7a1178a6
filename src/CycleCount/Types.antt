-- ===== src/CycleCount/Types.antt =====
-- The records of frappe_wms/services/cycle_count.py. Days are numbers.
use frappe_ewm.Base.{Bool, List, Name, ℕ, ℤ}
use frappe_ewm.Stock.Types.{Balance, LedgerEntry}

pub data Procedure : Type 0 where
  abc_cycle_count low_stock zero_stock putaway_pi bin_check annual other_procedure : Procedure

-- `Cycle Count Rule`
pub record CountRule : Type 0 where
  pub active : Bool
  pub procedure_type : Procedure
  pub warehouse : Name
  pub frequency_days : ℕ
  pub abc_indicator : Name
  pub storage_type : Name

pub data CountStatus : Type 0 where
  draft counting counted under_review posted cancelled : CountStatus

-- The fields of a `WMS Physical Inventory Count` that are read and written here; its date is the day
-- it is made.
pub record Count : Type 0 where
  pub name : Name
  pub warehouse : Name
  pub product : Name
  pub storage_bin : Name
  pub count_date : ℕ
  pub status : CountStatus

-- `WMS Product`
pub record Product : Type 0 where
  pub item : Name
  pub abc_indicator : Name
  pub warehouse_managed : Bool
  pub active : Bool

-- The fields of a `Replenishment Rule` that are read.
pub record StockRule : Type 0 where
  pub warehouse : Name
  pub active : Bool
  pub product : Name
  pub storage_bin : Name
  pub stock_type : Name
  pub minimum_quantity : ℤ

-- The fields of a `Storage Bin` that are read, in the order of their sequence.
pub record Bin : Type 0 where
  pub name : Name
  pub warehouse : Name
  pub storage_type : Name
  pub active : Bool

-- What the generators read and do not write.
pub record Session : Type 0 where
  pub today : ℕ
  pub count_name : ℕ → Name
  pub rules : List CountRule
  pub products : List Product
  pub stock_rules : List StockRule
  pub bins : List Bin
  pub balances : List Balance
  pub ledger : List LedgerEntry
  -- the day of a time of the ledger
  pub day_of : ℕ → ℕ

-- The counts made so far.
abbrev pub Counts : Type 0
Counts = List Count
