-- ===== src/Wave/Types.antt =====
-- The records of frappe_wms/services/wave.py. Times are in minutes.
use frappe_ewm.Base.{Bool, List, Name, Option, ℕ}

pub data WaveStatus : Type 0 where
  draft released picking picked completed cancelled : WaveStatus

-- `WMS Wave`; `deliveries` are the names in its rows.
pub record Wave : Type 0 where
  pub name : Name
  pub warehouse : Name
  pub route : Name
  pub priority : Name
  pub picking_strategy : Name
  pub ship_date : Name
  pub wave_template : Name
  pub status : WaveStatus
  pub deliveries : List Name

-- `Wave Template`; 0 stands for a number that is not set.
pub record Template : Type 0 where
  pub name : Name
  pub active : Bool
  pub warehouse : Name
  pub route : Name
  pub priority : Name
  pub picking_strategy : Name
  pub maximum_deliveries : ℕ
  pub minimum_deliveries : ℕ
  pub auto_release : Bool
  -- the minute of today's cutoff
  pub cutoff : Option ℕ
  pub lock_minutes : ℕ

-- The fields of an `Outbound Delivery` that are read; `is_open` is the status "Draft" or "Open".
pub record Delivery : Type 0 where
  pub name : Name
  pub warehouse : Name
  pub docstatus : ℕ
  pub is_open : Bool
  pub route : Name
  pub delivery_date : ℕ

pub data WaveError : Type 0 where
  not_permitted not_draft wave_locked wrong_choice too_few other_warehouses in_use : WaveError
  not_found : WaveError

-- What a request reads and does not write. `is_free` says that no other user holds the wave's lock.
pub record Session : Type 0 where
  pub has_role : Bool
  pub now : ℕ
  pub today : ℕ
  pub templates : List Template
  pub deliveries : List Delivery
  pub wave_name : ℕ → Name
  pub is_free : Name → Bool
