-- ===== src/Tests/BinRules.antt =====
-- The checks of frappe_wms/services/bin_rules.py, at concrete inputs.
use frappe_ewm.Base.{[], false, none, pos, refl, some, true, ◌+ℤ◌, ◌-ℤ◌, ◌∷◌, ◌≡◌, ◌≤ℤ◌}
use frappe_ewm.BinRules.Capacity.{amount, room, validate_destination_bin-fits}
use frappe_ewm.BinRules.Checks.{
  bin_checks, bin_violations, capacity_reasons, effective_limits, hu_fits_bin_type,
  hu_requirement_of, mixing_violations, validate_destination_bin,
}
use frappe_ewm.BinRules.Types.{Advice, Bin, Held, Incoming, StorageType, by_weight}

abbrev shelf : Bin
shelf = record {
  active = true;
  putaway_blocked = false;
  bin_type = none;
  stack_height = 0;
  lane_depth = 0;
  limits = record {
    maximum_hus = 0;
    maximum_weight = pos 500000000;
    maximum_volume = pos 0;
    maximum_quantity = pos 0;
  };
  allowed_stock_types = [];
  allowed_hu_types = [];
  storage_group = 0;
}

abbrev shelf_type : StorageType
shelf_type = record {
  capacity_check_method = by_weight;
  hu_type_check = true;
  hu_managed = false;
  hu_requirement = none;
  allow_mixed_products = false;
  allow_mixed_stock_types = true;
  allow_mixed_batches = true;
}

abbrev advice : Advice
advice = record {
  groups = [];
  hu_size = record { length = pos 0; width = pos 0; height = pos 0 };
  over_type_limit = false;
  dangerous = false;
}

abbrev holds : Held
holds = record {
  hu_count = 1;
  weight = pos 300000000;
  volume = pos 0;
  quantity = pos 5000000;
  occupants = record { product = 2; stock_type = 4; batch_no = 0 } ∷ [];
}

abbrev pallet : Incoming
pallet = record {
  item = 2;
  stock_type = 4;
  hu_type = 0;
  batch_no = 0;
  destination_hu = 61;
  incoming_weight = some (pos 200000000);
  incoming_hu_count = 1;
  incoming_volume = none;
  incoming_quantity = some (pos 3000000);
  require_hu = true;
}

validate_destination_bin-fits_example :
    (shelf.active ≡ true)
    × (shelf.putaway_blocked ≡ false)
    × (amount by_weight holds pallet ≤ℤ room by_weight (effective_limits shelf))
unfolding validate_destination_bin bin_violations bin_checks capacity_reasons mixing_violations
    effective_limits hu_fits_bin_type hu_requirement_of ◌+ℤ◌ ◌-ℤ◌
validate_destination_bin-fits_example =
    validate_destination_bin-fits true shelf shelf_type advice holds pallet refl refl
