-- ===== src/Tests/Difference.antt =====
-- A difference of frappe_wms/services/difference.py, at concrete inputs.
use frappe_ewm.Base.{[], err, none, pos, refl, true, ◌+ℤ◌, ◌+◌, ◌-ℤ◌, ◌∷◌, ◌≡◌}
use frappe_ewm.Difference.Clearing.{
  clear_destination, clear_over, clear_over_difference, clear_reference, clear_source, cleared_over,
  find_difference, save_difference,
}
use frappe_ewm.Difference.Record.{surplus}
use frappe_ewm.Difference.Types.{
  Session, TaskDifference, World, already_cleared, open_difference, over,
}
use frappe_ewm.Stock.Balance.{
  merge_dates, moved, new_balance, target_doc, upsert_balance, upsert_doc, upserted,
}
use frappe_ewm.Stock.Measure.{recompute_all}
use frappe_ewm.Stock.Naming.{balance_name, raw_name}
use frappe_ewm.Stock.Owner.{
  owner_pool, owner_stock_exists, resolve_from, resolve_owner, source_rows,
}
use frappe_ewm.Stock.Posting.{
  insert_ledger, key_below, key_exists, ledger_entry, names_below, post_all, post_entries, post_new,
  post_one, resolve_all, total_quantity, touched_hus, wrong_serial,
}
use frappe_ewm.Stock.Rows.{find_balance, same_place, save_balance}
use frappe_ewm.Stock.Transfer.{transfer_in, transfer_out, transfer_stock}
use frappe_ewm.Tests.Data.{env, from_ok, received}

-- Two units more than planned were found, and lie in bin 5.
abbrev surplus_found : TaskDifference
surplus_found = record {
  name = 500;
  warehouse = 1;
  warehouse_task = 6;
  task_type = 0;
  product = 2;
  stock_uom = 3;
  batch_no = 0;
  serial_no = 0;
  direction = over;
  planned_quantity = pos 1000000;
  difference_quantity = pos 2000000;
  stock_type = 4;
  storage_bin = 5;
  exception_code = 0;
  clearance_remarks = 0;
  difference_category = surplus;
  status = open_difference;
  cleared_by = 0;
  cleared_at = none;
  cleared_to_bin = 0;
}

abbrev controller : Session
controller = record {
  env = env;
  user = 5;
  now = 100;
  has_role = true;
  default_difference_bin = λ w. 5;
  exception_category = λ c. 0;
  difference_name = λ n. n + 500;
}

abbrev with_surplus : World
with_surplus = record { stock = received.1; differences = surplus_found ∷ []; dispatched = [] }

abbrev surplus_cleared : World
unfolding transfer_stock transfer_out transfer_in post_entries post_new resolve_all resolve_owner
    owner_stock_exists source_rows owner_pool resolve_from wrong_serial post_all post_one
    upsert_balance upserted target_doc upsert_doc new_balance merge_dates moved insert_ledger
    ledger_entry key_exists names_below key_below total_quantity touched_hus recompute_all
    find_balance save_balance same_place raw_name balance_name ◌+ℤ◌ ◌-ℤ◌ clear_over_difference
    clear_over cleared_over find_difference save_difference clear_source clear_destination
    clear_reference
surplus_cleared = from_ok with_surplus (clear_over_difference controller 500 6 0 with_surplus)

surplus_cleared_once :
    clear_over_difference controller 500 6 0 surplus_cleared ≡ err already_cleared
unfolding transfer_stock transfer_out transfer_in post_entries post_new resolve_all resolve_owner
    owner_stock_exists source_rows owner_pool resolve_from wrong_serial post_all post_one
    upsert_balance upserted target_doc upsert_doc new_balance merge_dates moved insert_ledger
    ledger_entry key_exists names_below key_below total_quantity touched_hus recompute_all
    find_balance save_balance same_place raw_name balance_name ◌+ℤ◌ ◌-ℤ◌ clear_over_difference
    clear_over cleared_over find_difference save_difference clear_source clear_destination
    clear_reference
surplus_cleared_once = refl
