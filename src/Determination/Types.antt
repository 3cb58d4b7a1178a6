-- ===== src/Determination/Types.antt =====
-- The records of frappe_wms/services/determination.py. A blank field of a rule fits everything.
use frappe_ewm.Base.{Bool, List, Name, Option, ℕ}

-- What is asked for: the keys of `context`.
pub record Context : Type 0 where
  pub warehouse : Name
  pub activity : Name
  pub item : Name
  pub item_group : Name
  pub stock_type : Name
  pub hu_type : Name
  pub source_storage_type : Name
  pub destination_storage_type : Name
  pub document_type : Name
  pub route : Name
  pub receipt_origin : Name
  pub production_supply_area : Name
  pub exclude_bin : Name
  pub user_storage_type : Name
  pub user_section : Name
  pub forced_storage_type : Name

-- `Process Determination Rule`
pub record ProcessRule : Type 0 where
  pub warehouse : Name
  pub document_type : Name
  pub item : Name
  pub item_group : Name
  pub stock_type : Name
  pub source_storage_type : Name
  pub destination_storage_type : Name
  pub route : Name
  pub storage_process : Name

-- `Inspection Rule`
pub record InspectionRule : Type 0 where
  pub name : Name
  pub warehouse : Name
  pub item : Name
  pub item_group : Name

-- `Warehouse Process Type Determination Rule`
pub record TypeRule : Type 0 where
  pub activity : Name
  pub warehouse : Name
  pub item : Name
  pub item_group : Name
  pub stock_type : Name
  pub priority_level : Name
  pub process_type_determination_indicator : Name
  pub process_type : Name

pub data Strategy : Type 0 where
  least_utilized_bin bin_sequence general_storage first_empty_bin pallet : Strategy
  addition_to_existing_stock bulk near_fixed_bin custom manual_selection other_strategy : Strategy

-- `Bin Determination Rule`
pub record BinRule : Type 0 where
  pub warehouse : Name
  pub activity : Name
  pub item : Name
  pub item_group : Name
  pub stock_type : Name
  pub hu_type : Name
  pub source_storage_type : Name
  pub receipt_origin : Name
  pub production_supply_area : Name
  pub fixed_destination_bin : Name
  pub strategy : Strategy
  pub custom_strategy : Name
  pub destination_storage_type : Name
  pub destination_section : Name
  pub destination_storage_group : Name
  pub search_sequence : Name

pub record Bin : Type 0 where
  pub name : Name
  pub warehouse : Name
  pub storage_type : Name
  pub storage_section : Name
  pub storage_group : Name
  pub active : Bool
  pub putaway_blocked : Bool
  pub maximum_hus : ℕ
  pub sequence : ℕ
  pub aisle : Name

-- An active `Storage Type Search Sequence` for putaway, its storage types in the order of their
-- sequence; those that rules name are there.
pub record SearchSequence : Type 0 where
  pub name : Name
  pub warehouse : Name
  pub stock_type : Name
  pub indicator : Name
  pub storage_types : List Name

pub data DeterminationError : Type 0 where
  no_process no_bin manual_bin unknown_strategy : DeterminationError

-- The rules in the order of their priority, the master data, and what other services answer:
-- `bin_violations` and `storage_type_quantity_violation` of services/bin_rules.py for the context,
-- `live_hu_count` with the reserved ones, and the strategies that other apps register.
pub record Session : Type 0 where
  pub process_rules : List ProcessRule
  pub inspection_rules : List InspectionRule
  pub type_rules : List TypeRule
  pub bin_rules : List BinRule
  -- in the order of their sequence
  pub bins : List Bin
  pub search_sequences : List SearchSequence
  pub process_indicator : Name → Name → Name
  pub putaway_indicator : Name → Name → Name
  pub section_indicator : Name → Name → Name
  pub indicator_of_section : Name → Name → Name
  pub preferred_storage_type : Name → Name → Name
  pub fixed_bin : Name → Name → Name
  pub bin_aisle : Name → Name
  pub putaway_strategy : Name → Option Strategy
  pub holds : Name → Name → Bool
  pub live_hu_count : Name → ℕ
  pub has_violations : Context → Name → Bool
  pub over_type_quantity : Context → Name → Bool
  pub custom_strategy : Name → Option (List Bin → List Bin)
