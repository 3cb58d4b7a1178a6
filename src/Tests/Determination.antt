-- ===== src/Tests/Determination.antt =====
-- The rules of frappe_wms/services/determination.py, at concrete inputs.
use frappe_ewm.Base.{
  All, List, Name, [], all, false, if◌then◌else◌, none, ok, refl, some, sorted, subst, true, ℕ,
  ◌==◌, ◌∷◌, ◌≡◌, ◌⊎◌,
}
use frappe_ewm.Determination.Allowed.{IsPlace, Selects}
use frappe_ewm.Determination.Destination.{
  bin_rule_fits, candidate_bins, determine_destination_bin, filter_by_section, is_listed, is_usable,
  putaway_types, rule_searches, search_types, try_rules,
}
use frappe_ewm.Determination.Destined.{IsFixed, determine_destination_bin-IsPlace}
use frappe_ewm.Determination.Rules.{Asked, determine_process_type, indicator_for, type_rule_fits}
use frappe_ewm.Determination.Strategy.{apply_bin_strategy, ranked}
use frappe_ewm.Determination.Types.{Bin, BinRule, Context, Session, TypeRule, first_empty_bin}

abbrev blank_rule : TypeRule
blank_rule = record {
  activity = 7;
  warehouse = 0;
  item = 0;
  item_group = 0;
  stock_type = 0;
  priority_level = 0;
  process_type_determination_indicator = 0;
  process_type = 70;
}

-- The rule for item 2 comes before the one for every item.
abbrev type_rules_of_test : List TypeRule
type_rules_of_test = record blank_rule { item = 2; process_type = 71 } ∷ blank_rule ∷ []

abbrev storage_bin_of : Name → ℕ → Bin
storage_bin_of n place = record {
  name = n;
  warehouse = 1;
  storage_type = 3;
  storage_section = 0;
  storage_group = 0;
  active = true;
  putaway_blocked = false;
  maximum_hus = 4;
  sequence = place;
  aisle = 0;
}

abbrev putaway_rule : BinRule
putaway_rule = record {
  warehouse = 1;
  activity = 7;
  item = 0;
  item_group = 0;
  stock_type = 4;
  hu_type = 0;
  source_storage_type = 0;
  receipt_origin = 0;
  production_supply_area = 0;
  fixed_destination_bin = 0;
  strategy = first_empty_bin;
  custom_strategy = 0;
  destination_storage_type = 3;
  destination_section = 0;
  destination_storage_group = 0;
  search_sequence = 0;
}

abbrev clerk : Session
clerk = record {
  process_rules = [];
  inspection_rules = [];
  type_rules = type_rules_of_test;
  bin_rules = putaway_rule ∷ [];
  bins = storage_bin_of 5 1 ∷ storage_bin_of 6 2 ∷ storage_bin_of 7 3 ∷ [];
  search_sequences = [];
  process_indicator = λ i w. 0;
  putaway_indicator = λ i w. 0;
  section_indicator = λ i w. 0;
  indicator_of_section = λ t n. 0;
  preferred_storage_type = λ i w. 0;
  fixed_bin = λ i w. 0;
  bin_aisle = λ b. 0;
  putaway_strategy = λ t. none;
  holds = λ b i. false;
  live_hu_count = λ b. if b == 7 then 0 else 1;
  has_violations = λ c b. b == 5;
  over_type_quantity = λ c t. false;
  custom_strategy = λ n. some (λ bins. bins);
}

abbrev receipt : Context
receipt = record {
  warehouse = 1;
  activity = 7;
  item = 2;
  item_group = 0;
  stock_type = 4;
  hu_type = 0;
  source_storage_type = 0;
  destination_storage_type = 0;
  document_type = 0;
  route = 0;
  receipt_origin = 0;
  production_supply_area = 0;
  exclude_bin = 0;
  user_storage_type = 0;
  user_section = 0;
  forced_storage_type = 0;
}

-- The empty bin before the one that comes first.
empty_bin : determine_destination_bin clerk receipt ≡ ok 7
unfolding determine_destination_bin try_rules search_types bin_rule_fits rule_searches putaway_types
    candidate_bins filter_by_section is_listed is_usable apply_bin_strategy ranked sorted
empty_bin = refl

abbrev asked : Asked
asked = record {
  warehouse = 1;
  activity = 7;
  item = 2;
  item_group = 0;
  stock_type = 4;
  priority_level = 0;
  default = 79;
}

item_rule : determine_process_type clerk asked ≡ 71
unfolding determine_process_type type_rule_fits indicator_for
item_rule = refl

-- Another app's strategy returns the bins in the order that it is given.
clerk-Selects : Selects clerk
clerk-Selects n f known P bins all =
    let same : (λ bins. bins) ≡ f = cc known in subst (λ g. All P (g bins)) same all

determine_destination_bin-IsPlace_example :
    IsFixed clerk receipt clerk.bin_rules 7 ⊎ IsPlace clerk receipt 7
determine_destination_bin-IsPlace_example =
    determine_destination_bin-IsPlace clerk receipt {n = 7} clerk-Selects empty_bin
