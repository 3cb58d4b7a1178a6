-- ===== src/Tests/Replenishment.antt =====
-- A rule of frappe_wms/services/replenishment.py, at concrete inputs.
use frappe_ewm.Base.{
  [], false, none, ok, pos, refl, sorted, true, ◌+ℤ◌, ◌+◌, ◌-ℤ◌, ◌<ℤ◌, ◌∷◌, ◌≡◌, ◌≤ℤ◌,
}
use frappe_ewm.Replenishment.Request.{rule_quantity}
use frappe_ewm.Replenishment.Source.{
  best_source_bin, current_quantity, is_common, is_source, lies_in, pending_request_exists,
  request_exists, sum_quantity,
}
use frappe_ewm.Replenishment.Target.{rule_quantity-target}
use frappe_ewm.Replenishment.Types.{Rule, Session, World}
use frappe_ewm.Stock.Types.{Balance}
use frappe_ewm.Tests.Data.{no_owner, receiving_bin}

abbrev refill : Rule
refill = record {
  name = 1;
  active = true;
  warehouse = 1;
  product = 2;
  storage_bin = 6;
  stock_type = 4;
  source_storage_type = 3;
  minimum_quantity = pos 1000000;
  target_quantity = pos 3000000;
  priority = 0;
}

abbrev reserve_row : Balance
reserve_row = record {
  name = 77;
  place = receiving_bin;
  owner = no_owner;
  stock_uom = 3;
  quantity = pos 4000000;
  allocated_quantity = pos 2000000;
  available_quantity = pos 2000000;
  first_receipt_date = none;
  shelf_life_expiry_date = none;
  last_movement_date = none;
  version = 1;
}

abbrev planner : Session
planner = record {
  has_role = true;
  user = 5;
  rules = refill ∷ [];
  bins = record { name = 5; warehouse = 1; storage_type = 3; removal_blocked = false } ∷ [];
  uom_of_product = λ p. 3;
  determine_process_type = λ w p t. 0;
  request_name = λ n. n + 700;
  create_tasks_for_request = λ n w. ok (n + 1, w);
}

abbrev low_bin : World
low_bin = record { balances = reserve_row ∷ []; requests = [] }

rule_quantity-target_example :
    (pos 0 ≤ℤ pos 1000000)
    × (pending_request_exists 1 low_bin.requests ≡ false)
    × (is_source planner 1 2 3 4 6 reserve_row ≡ true)
    × (pos 0 <ℤ pos 2000000)
    × (pos 2000000 ≤ℤ pos 2000000)
    × (pos 0 +ℤ pos 2000000 ≤ℤ pos 3000000)
unfolding rule_quantity best_source_bin is_source is_common current_quantity sum_quantity lies_in
    request_exists sorted ◌+ℤ◌ ◌-ℤ◌
rule_quantity-target_example =
    rule_quantity-target planner refill low_bin {found = (reserve_row, pos 2000000)} refl
