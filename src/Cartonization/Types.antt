-- ===== src/Cartonization/Types.antt =====
-- The records of frappe_wms/services/cartonization.py.
use frappe_ewm.Base.{Bool, List, Name, Option, ℕ}

-- A `Handling Unit Type` that is flagged for cartonization; a limit of 0 is none.
pub record HuType : Type 0 where
  pub name : Name
  pub maximum_weight : ℕ
  pub maximum_volume : ℕ

-- An entry of `rows`: an item's quantity, weight and volume in a carton.
pub record CartonRow : Type 0 where
  pub item : Name
  pub quantity : ℕ
  pub weight : ℕ
  pub volume : ℕ

pub record Carton : Type 0 where
  pub hu_type : Name
  pub room_w : Option ℕ
  pub room_v : Option ℕ
  pub rows : List CartonRow

pub data DeliveryStatus : Type 0 where
  completed cancelled goods_issued other_status : DeliveryStatus

pub record DeliveryItem : Type 0 where
  pub item : Name
  pub requested_quantity : ℕ
  pub packed_quantity : ℕ

-- `Planned Shipping HU`
pub record PlannedHu : Type 0 where
  pub carton_no : ℕ
  pub hu_type : Name
  pub item : Name
  pub quantity : ℕ
  pub weight : ℕ
  pub volume : ℕ
  pub handling_unit : Name

pub record Delivery : Type 0 where
  pub name : Name
  pub docstatus : ℕ
  pub closed_short : Bool
  pub status : DeliveryStatus
  pub items : List DeliveryItem
  pub planned_hus : List PlannedHu

-- What a request reads and does not write.
pub record Session : Type 0 where
  pub has_role : Bool
  -- ordered by `maximum_volume asc, maximum_weight asc`
  pub types : List HuType
  pub gross_weight_per_unit : Name → ℕ
  pub volume_per_unit : Name → ℕ
  -- a `Handling Unit` of the delivery is there
  pub has_hu : Name → Bool

pub data CartonError : Type 0 where
  not_permitted not_open already_packed no_types no_measure does_not_fit : CartonError
  -- the bound on the rounds of the loop was too small, which it never is
  out_of_rounds : CartonError
