-- ===== src/Tests/Allocation.antt =====
-- The allocation of frappe_wms/services/allocation.py, at concrete inputs.
use frappe_ewm.Base.{
  All, [], arith, false, none, pos, refl, some, sorted, true, ◌+ℤ◌, ◌+◌, ◌-ℤ◌, ◌∷◌, ◌≡◌,
}
use frappe_ewm.Allocation.Allocate.{
  allocate_delivery, allocate_line, allocate_lines, allocation_status_of, line_after,
  new_allocation, reserve, take_all, take_from, take_row, taken,
}
use frappe_ewm.Allocation.Candidates.{
  admitted_batches, allocatable_hus, by_bins, by_removal_sequence, candidate_balances, long_enough,
  min_remaining, order_rows, queried, row_matches,
}
use frappe_ewm.Allocation.Delivery.{IsWithin, allocate_delivery-reserves, lines_total}
use frappe_ewm.Allocation.Reserves.{IsCovered, reserved_total}
use frappe_ewm.Allocation.Types.{Db, Delivery, Line, Master, not_allocated}
use frappe_ewm.Removal.{insert_by, match_removal_rule, sorted_by, strategy_fefo, strategy_fifo}
use frappe_ewm.Stock.Rows.{find_balance, save_balance}
use frappe_ewm.Stock.Types.{Balance}
use frappe_ewm.Tests.Data.{from_ok, no_owner, receiving_bin}

abbrev shelf : Balance
shelf = record {
  name = 11;
  place = receiving_bin;
  owner = no_owner;
  stock_uom = 3;
  quantity = pos 4000000;
  allocated_quantity = pos 0;
  available_quantity = pos 4000000;
  first_receipt_date = some 100;
  shelf_life_expiry_date = none;
  last_movement_date = none;
  version = 0;
}

abbrev master : Master
master = record {
  has_role = true;
  may_write = λ n. true;
  item_group = λ n. 3;
  removal_rules = λ w. [];
  sort_value = λ f b. none;
  registry = λ n. none;
  minimum_remaining_shelf_life = λ n. 0;
  customer_remaining_shelf_life = λ n. 0;
  today = 400;
  batches_with = λ c v. [];
  hu_not_allocatable = λ h. false;
  removal_blocked = λ b. false;
  storage_type_of = λ b. 1;
  type_not_allocatable = λ t. false;
  removal_sequence = λ w i s. none;
  allocation_name = λ n. 700 + n;
}

abbrev line : Line
line = record {
  name = 21;
  item = 2;
  requested_quantity = pos 3000000;
  allocated_quantity = pos 0;
  picked_quantity = pos 0;
  packed_quantity = pos 0;
  issued_quantity = pos 0;
  required_stock_type = 4;
  required_serial_no = 0;
  required_batch = 0;
  required_country_of_origin = 0;
  sales_order = 0;
  required_characteristics = [];
}

abbrev delivery : Delivery
delivery = record {
  name = 31;
  warehouse = 1;
  customer = 0;
  stock_owner = 0;
  entitled_party = 0;
  submitted = true;
  items = line ∷ [];
  allocation_status = not_allocated;
}

abbrev tables : Db
tables = record { balances = shelf ∷ []; allocations = [] }

abbrev outcome : Delivery × Db
unfolding allocate_delivery allocate_lines allocate_line line_after take_all take_from take_row
    taken reserve new_allocation allocation_status_of candidate_balances queried by_bins
    by_removal_sequence allocatable_hus long_enough min_remaining order_rows row_matches
    admitted_batches match_removal_rule strategy_fefo strategy_fifo sorted_by insert_by find_balance
    save_balance sorted ◌+ℤ◌ ◌-ℤ◌
outcome = from_ok (delivery, tables) (allocate_delivery master delivery tables)

allocate_delivery-reserves_example :
    All IsCovered outcome.1.balances
    × (reserved_total outcome.1.allocations +ℤ lines_total delivery.items
        ≡ reserved_total tables.allocations +ℤ lines_total outcome.0.items)
    × All IsWithin outcome.0.items
unfolding allocate_delivery allocate_lines allocate_line line_after take_all take_from take_row
    taken reserve new_allocation allocation_status_of candidate_balances queried by_bins
    by_removal_sequence allocatable_hus long_enough min_remaining order_rows row_matches
    admitted_batches match_removal_rule strategy_fefo strategy_fifo sorted_by insert_by find_balance
    save_balance sorted ◌+ℤ◌ ◌-ℤ◌
allocate_delivery-reserves_example =
    allocate_delivery-reserves master delivery tables ((refl, omega arith), tt) (omega arith, tt)
      refl
