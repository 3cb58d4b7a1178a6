-- ===== src/Difference/Clearing.antt =====
-- How a difference of frappe_wms/services/difference.py is listed and cleared.
use frappe_ewm.Base.{
  Bool, List, Name, Option, Result, [], err, false, if◌then◌else◌, is_set, keep, none, not, ok,
  or_name, some, take, throw_if, true, ◌&&◌, ◌==◌, ◌>>=◌, ◌>>◌, ◌||◌, ◌∷◌,
}
use frappe_ewm.Difference.Record.{
  difference_doctype, no_owner_keys, posting_result, tdiff_clear, transfer_movement,
}
use frappe_ewm.Difference.Types.{
  DifferenceError, DifferenceStatus, Direction, Session, TaskDifference, World, already_cleared,
  cleared, not_found, not_permitted, open_difference, other_direction, over, short,
}
use frappe_ewm.Stock.Posting.{Reference}
use frappe_ewm.Stock.Transfer.{Destination, Source, transfer_stock}

abbrev pub is_open : DifferenceStatus → Bool
is_open open_difference = true
is_open cleared = false

abbrev pub is_over : Direction → Bool
is_over over = true
is_over short = false

-- `list_open_differences`
unfoldable pub list_open_differences : Name → Option Direction → World → List TaskDifference
list_open_differences warehouse direction w = take 100 (keep wanted w.differences)
  where
    same_way : Option Direction → Direction → Bool
    same_way none b = true
    same_way (some over) b = is_over b
    same_way (some short) b = not (is_over b)

    wanted : TaskDifference → Bool
    wanted d =
        is_open d.status
        && (not (is_set warehouse) || (d.warehouse == warehouse))
        && same_way direction d.direction

unfoldable pub find_difference : Name → List TaskDifference → Option TaskDifference
find_difference n [] = none
find_difference n (d ∷ ds) = let rest = find_difference n ds in if d.name == n then some d else rest

-- `doc.db_set`
unfoldable pub save_difference : TaskDifference → List TaskDifference → List TaskDifference
save_difference d [] = []
save_difference d (x ∷ xs) =
    let rest = save_difference d xs in if x.name == d.name then d ∷ xs else x ∷ rest

unfoldable pub clear_source : TaskDifference → Source
clear_source d = record {
  place = record {
    warehouse = d.warehouse;
    product = d.product;
    batch_no = d.batch_no;
    serial_no = d.serial_no;
    handling_unit = 0;
    storage_bin = d.storage_bin;
    stock_type = d.stock_type;
  };
  owner = no_owner_keys;
  stock_uom = d.stock_uom;
}

unfoldable pub clear_destination : TaskDifference → Name → Name → Destination
clear_destination d bin hu = record {
  handling_unit = hu;
  storage_bin = bin;
  stock_type = d.stock_type;
  product = none;
  batch_no = none;
  warehouse = none;
  serial_no = none;
  stock_uom = none;
  owner = no_owner_keys;
  first_receipt_date = none;
  shelf_life_expiry_date = none;
}

unfoldable pub clear_reference : TaskDifference → Reference
clear_reference d = record {
  reference_doctype = difference_doctype;
  reference_name = d.name;
  idempotency_key = tdiff_clear ∷ d.name ∷ [];
  warehouse_task = 0;
  device = 0;
}

unfoldable pub cleared_over : Session → Name → TaskDifference → TaskDifference
cleared_over s bin d = record d {
  status = cleared;
  cleared_by = s.user;
  cleared_at = some s.now;
  cleared_to_bin = bin;
}

unfoldable pub clear_over :
    Session → Name → Name → TaskDifference → World → Result DifferenceError World
clear_over s bin hu d w = do
  throw_if (not (is_open d.status)) already_cleared
  throw_if (not (is_over d.direction)) other_direction
  (created, db) ← posting_result (
      transfer_stock s.env (clear_source d) (clear_destination d bin hu) d.difference_quantity
        transfer_movement (clear_reference d) w.stock)
  ok (record w { stock = db; differences = save_difference (cleared_over s bin d) w.differences })

-- `clear_over_difference`
unfoldable pub clear_over_difference :
    Session → Name → Name → Name → World → Result DifferenceError World
clear_over_difference s n bin hu w = do
  throw_if (not s.has_role) not_permitted
  elim (find_difference n w.differences) [ none ↦ err not_found | some d ↦ clear_over s bin hu d w ]

unfoldable pub cleared_short : Session → Name → TaskDifference → TaskDifference
cleared_short s remarks d = record d {
  status = cleared;
  cleared_by = s.user;
  cleared_at = some s.now;
  clearance_remarks = or_name remarks d.clearance_remarks;
}

unfoldable pub clear_short : Session → Name → TaskDifference → World → Result DifferenceError World
clear_short s remarks d w = do
  throw_if (not (is_open d.status)) already_cleared
  throw_if (is_over d.direction) other_direction
  ok (record w { differences = save_difference (cleared_short s remarks d) w.differences })

-- `clear_short_difference`
unfoldable pub clear_short_difference : Session → Name → Name → World → Result DifferenceError World
clear_short_difference s n remarks w = do
  throw_if (not s.has_role) not_permitted
  elim (find_difference n w.differences) [
    | none ↦ err not_found
    | some d ↦ clear_short s remarks d w
  ]
