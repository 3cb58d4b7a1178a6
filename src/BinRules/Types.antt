-- ===== src/BinRules/Types.antt =====
-- The records of frappe_wms/services/bin_rules.py. Weights, volumes, quantities and sizes are in
-- millionths; a blank limit is zero.
use frappe_ewm.Base.{Bool, List, Name, Option, ℕ, ℤ}

-- The limits that a bin or its type sets.
pub record Limits : Type 0 where
  pub maximum_hus : ℕ
  pub maximum_weight : ℤ
  pub maximum_volume : ℤ
  pub maximum_quantity : ℤ

pub record Size : Type 0 where
  pub length : ℤ
  pub width : ℤ
  pub height : ℤ

-- A `Bin Type`.
pub record BinType : Type 0 where
  pub limits : Limits
  pub size : Size

-- A `Storage Bin`.
pub record Bin : Type 0 where
  pub active : Bool
  pub putaway_blocked : Bool
  pub bin_type : Option BinType
  pub stack_height : ℕ
  pub lane_depth : ℕ
  pub limits : Limits
  pub allowed_stock_types : List Name
  pub allowed_hu_types : List Name
  pub storage_group : Name

pub data CapacityCheck : Type 0 where
  no_check by_hu_count by_weight by_quantity by_volume : CapacityCheck

pub data HuRequirement : Type 0 where
  forbidden optional mandatory : HuRequirement

-- A `Storage Type`.
pub record StorageType : Type 0 where
  pub capacity_check_method : CapacityCheck
  pub hu_type_check : Bool
  pub hu_managed : Bool
  pub hu_requirement : Option HuRequirement
  pub allow_mixed_products : Bool
  pub allow_mixed_stock_types : Bool
  pub allow_mixed_batches : Bool

-- A row of stock in the bin.
pub record Occupant : Type 0 where
  pub product : Name
  pub stock_type : Name
  pub batch_no : Name

-- What the bin holds, as the locking reads find it.
pub record Held : Type 0 where
  pub hu_count : ℕ
  pub weight : ℤ
  pub volume : ℤ
  pub quantity : ℤ
  pub occupants : List Occupant

-- What is put away; `none` and a blank name are arguments that the caller leaves out.
pub record Incoming : Type 0 where
  pub item : Name
  pub stock_type : Name
  pub hu_type : Name
  pub batch_no : Name
  pub destination_hu : Name
  pub incoming_weight : Option ℤ
  pub incoming_hu_count : ℕ
  pub incoming_volume : Option ℤ
  pub incoming_quantity : Option ℤ
  pub require_hu : Bool

-- What the other services say of the product: its storage groups, the size of the handling unit's
-- type, the limit of the storage type and the dangerous goods that are not allowed.
pub record Advice : Type 0 where
  pub groups : List Name
  pub hu_size : Size
  pub over_type_limit : Bool
  pub dangerous : Bool

pub data Reason : Type 0 where
  unusable wrong_stock_type wrong_hu_type wrong_group type_limit dangerous_goods no_fit : Reason
  hu_capacity weight_capacity quantity_capacity volume_capacity hu_needed : Reason
  other_product other_stock_type other_batch : Reason
