-- ===== src/Stock/Relocate.antt =====
-- `relocate_hu_balances` of frappe_wms/services/stock.py: the balance rows of handling units that were
-- moved to another bin without a posting follow them there.
use frappe_ewm.Base.{
  List, Name, Option, [], keep, none, not, option_or, pos, some, ◌&&◌, ◌+ℤ◌, ◌+◌, ◌-ℤ◌, ◌==◌, ◌∷◌,
}
use frappe_ewm.Stock.Balance.{keep_older}
use frappe_ewm.Stock.Naming.{balance_name}
use frappe_ewm.Stock.Rows.{delete_balance, find_balance, save_balance}
use frappe_ewm.Stock.Types.{Balance, Db, Env, Place}

-- The rows of a handling unit that are not in the bin.
unfoldable pub stale_rows : Name → Name → List Balance → List Balance
stale_rows hu new_bin =
    keep λ b. (b.place.handling_unit == hu) && not (b.place.storage_bin == new_bin)

-- `new_values`: where the row belongs.
abbrev pub new_place : Name → Balance → Place
new_place new_bin row = record row.place { storage_bin = new_bin }

abbrev pub new_name : Env → Name → Balance → Name
new_name env new_bin row = balance_name env (new_place new_bin row) row.owner

-- `frappe.new_doc` and the `target.is_new()` branch.
unfoldable pub empty_target : Env → Name → Balance → Balance
empty_target env new_bin row = record {
  name = new_name env new_bin row;
  place = new_place new_bin row;
  owner = row.owner;
  stock_uom = row.stock_uom;
  quantity = pos 0;
  allocated_quantity = pos 0;
  available_quantity = pos 0;
  first_receipt_date = none;
  shelf_life_expiry_date = none;
  last_movement_date = none;
  version = 0;
}

abbrev or_new : Balance → Option Balance → Balance
or_new fresh none = fresh
or_new fresh (some b) = b

unfoldable pub target_row : Env → Name → Balance → List Balance → Balance
target_row env new_bin row bs =
    or_new (empty_target env new_bin row) (find_balance (new_name env new_bin row) bs)

-- What the target is saved as. The dates come from the row as it was listed, the quantities from the
-- row as it is read under its lock.
unfoldable pub merge_row : Env → Balance → Balance → Balance → Balance
merge_row env row source target = record target {
  quantity = target.quantity +ℤ source.quantity;
  allocated_quantity = target.allocated_quantity +ℤ source.allocated_quantity;
  available_quantity =
      target.quantity
      +ℤ source.quantity
      -ℤ (target.allocated_quantity +ℤ source.allocated_quantity);
  first_receipt_date = keep_older row.first_receipt_date target.first_receipt_date;
  shelf_life_expiry_date = option_or target.shelf_life_expiry_date row.shelf_life_expiry_date;
  last_movement_date = some env.now;
  version = target.version + 1;
}

-- One round of the loop over the rows; a row that is gone by then is skipped.
unfoldable pub relocate_from : Env → Name → Balance → Option Balance → List Balance → List Balance
relocate_from env new_bin row none bs = bs
relocate_from env new_bin row (some source) bs =
    delete_balance row.name
      (save_balance (merge_row env row source (target_row env new_bin row bs)) bs)

unfoldable pub relocate_row : Env → Name → Balance → List Balance → List Balance
relocate_row env new_bin row bs = relocate_from env new_bin row (find_balance row.name bs) bs

unfoldable pub relocate_rows : Env → Name → List Balance → List Balance → List Balance
relocate_rows env new_bin [] bs = bs
relocate_rows env new_bin (row ∷ rows) bs =
    relocate_rows env new_bin rows (relocate_row env new_bin row bs)

-- The loop over a handling unit and its descendants, given their names.
unfoldable pub relocate_hus : Env → Name → List Name → Db → Db
relocate_hus env new_bin [] db = db
relocate_hus env new_bin (hu ∷ hus) db = relocate_hus env new_bin hus (record db {
  balances = relocate_rows env new_bin (stale_rows hu new_bin db.balances) db.balances;
})
