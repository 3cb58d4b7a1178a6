-- ===== src/Tests/PostingChange.antt =====
-- A change of frappe_wms/services/posting_change.py, at concrete inputs.
use frappe_ewm.Base.{Name, [], err, false, none, pos, refl, true, ◌+ℤ◌, ◌-ℤ◌, ◌≡◌}
use frappe_ewm.PostingChange.Change.{
  cancel_entry, cancel_posting_change, changed_row, check_mixing, half_special_stock, mark_posted,
  other_batch, other_product, post_posting_change, validate_change,
}
use frappe_ewm.PostingChange.Guards.{post_posting_change-cancel_posting_change}
use frappe_ewm.PostingChange.Sides.{
  after_side, before_side, change_reference, changed_owner, destination_of, identity_eq,
  move_between, move_change, place_of, source_of,
}
use frappe_ewm.PostingChange.Types.{
  Change, Session, World, already_posted, cancelled_change, draft_change, not_posted,
}
use frappe_ewm.Stock.Balance.{
  merge_dates, moved, new_balance, target_doc, upsert_balance, upsert_doc, upserted,
}
use frappe_ewm.Stock.Measure.{recompute_all}
use frappe_ewm.Stock.Naming.{balance_name, raw_name}
use frappe_ewm.Stock.Owner.{
  owner_pool, owner_stock_exists, resolve_from, resolve_owner, source_rows,
}
use frappe_ewm.Stock.Posting.{
  insert_ledger, key_below, key_exists, ledger_entry, names_below, post_all, post_entries, post_new,
  post_one, resolve_all, total_quantity, touched_hus, wrong_serial,
}
use frappe_ewm.Stock.Rows.{find_balance, quantity_of, same_place, save_balance}
use frappe_ewm.Stock.Transfer.{transfer_in, transfer_out, transfer_stock}
use frappe_ewm.Tests.Data.{env, from_ok, no_owner, received}

-- Two units in the receiving bin get another stock type.
abbrev block_stock : Change
block_stock = record {
  name = 400;
  warehouse = 1;
  product = 2;
  batch_no = 0;
  serial_no = 0;
  handling_unit = 0;
  storage_bin = 5;
  from_stock_type = 4;
  to_stock_type = 9;
  quantity = pos 2000000;
  stock_uom = 3;
  reason = 0;
  status = draft_change;
  owner = record no_owner { stock_owner = 8 };
  to_product = 0;
  to_batch_no = 0;
  to_owner = no_owner;
  erpnext_stock_entry = 0;
  posted_by = 0;
  posted_at = none;
}

abbrev supervisor : Session
supervisor = record {
  env = env;
  user = 5;
  now = 100;
  has_role = true;
  uom_of_product = λ p. 3;
  is_warehouse_managed = λ p. true;
  batch_item = λ b. 0;
  mixing_violations = λ b p t n db. false;
  is_submitted = λ n. false;
  new_name = 401;
}

abbrev before_change : World
before_change = record { stock = received.1; dispatched = []; cancelled_entries = [] }

abbrev after_change : Change × World
unfolding transfer_stock transfer_out transfer_in post_entries post_new resolve_all resolve_owner
    owner_stock_exists source_rows owner_pool resolve_from wrong_serial post_all post_one
    upsert_balance upserted target_doc upsert_doc new_balance merge_dates moved insert_ledger
    ledger_entry key_exists names_below key_below total_quantity touched_hus recompute_all
    find_balance save_balance same_place raw_name balance_name ◌+ℤ◌ ◌-ℤ◌ post_posting_change
    cancel_posting_change validate_change move_change move_between check_mixing mark_posted
    cancel_entry before_side after_side changed_owner identity_eq place_of source_of destination_of
    change_reference changed_row half_special_stock other_product other_batch
after_change =
    from_ok (block_stock, before_change)
      (post_posting_change supervisor true block_stock before_change)

abbrev after_cancel : Change × World
unfolding transfer_stock transfer_out transfer_in post_entries post_new resolve_all resolve_owner
    owner_stock_exists source_rows owner_pool resolve_from wrong_serial post_all post_one
    upsert_balance upserted target_doc upsert_doc new_balance merge_dates moved insert_ledger
    ledger_entry key_exists names_below key_below total_quantity touched_hus recompute_all
    find_balance save_balance same_place raw_name balance_name ◌+ℤ◌ ◌-ℤ◌ post_posting_change
    cancel_posting_change validate_change move_change move_between check_mixing mark_posted
    cancel_entry before_side after_side changed_owner identity_eq place_of source_of destination_of
    change_reference changed_row half_special_stock other_product other_batch
after_cancel =
    from_ok (block_stock, before_change)
      (cancel_posting_change supervisor after_change.0 after_change.1)

post_posting_change-cancel_posting_change_example :
    ((n : Name) → quantity_of n after_cancel.1.stock.balances ≡ quantity_of n received.1.balances)
    × (after_cancel.0.status ≡ cancelled_change)
    × (post_posting_change supervisor true after_cancel.0 after_cancel.1 ≡ err already_posted)
    × (cancel_posting_change supervisor after_cancel.0 after_cancel.1 ≡ err not_posted)
unfolding transfer_stock transfer_out transfer_in post_entries post_new resolve_all resolve_owner
    owner_stock_exists source_rows owner_pool resolve_from wrong_serial post_all post_one
    upsert_balance upserted target_doc upsert_doc new_balance merge_dates moved insert_ledger
    ledger_entry key_exists names_below key_below total_quantity touched_hus recompute_all
    find_balance save_balance same_place raw_name balance_name ◌+ℤ◌ ◌-ℤ◌ post_posting_change
    cancel_posting_change validate_change move_change move_between check_mixing mark_posted
    cancel_entry before_side after_side changed_owner identity_eq place_of source_of destination_of
    change_reference changed_row half_special_stock other_product other_batch
post_posting_change-cancel_posting_change_example =
    post_posting_change-cancel_posting_change supervisor true block_stock before_change
      {out = after_change} {end = after_cancel} refl refl refl refl
