-- ===== src/Stock/Balance.antt =====
-- `_upsert_balance` and `release_allocation` of frappe_wms/services/stock.py.
use frappe_ewm.Base.{
  Bool, Name, Option, Result, err, if◌then◌else◌, ltb, ltb_ℤ, max_ℤ, none, not, ok, option_or, pos,
  some, true, ℕ, ℤ, ◌&&◌, ◌+ℤ◌, ◌+◌, ◌-ℤ◌,
}
use frappe_ewm.Stock.Naming.{any_owner, balance_name, dim_values, entry_name}
use frappe_ewm.Stock.Rows.{find_balance, save_balance}
use frappe_ewm.Stock.Types.{Balance, Db, Entry, Env, Error, OwnerKeys, Place, insufficient_stock}

-- The older of an incoming date and the one on the row.
abbrev pub keep_older : Option ℕ → Option ℕ → Option ℕ
keep_older none current = current
keep_older (some d) none = some d
keep_older (some d) (some c) = if ltb d c then some d else some c

-- `frappe.new_doc` and the `doc.is_new()` branch.
unfoldable pub new_balance : Env → Entry → Balance
new_balance env e = record {
  name = entry_name env e;
  place = e.place;
  owner = dim_values e;
  stock_uom = e.stock_uom;
  quantity = pos 0;
  allocated_quantity = pos 0;
  available_quantity = pos 0;
  first_receipt_date =
      option_or e.first_receipt_date (if ltb_ℤ (pos 0) e.quantity then some env.now else none);
  shelf_life_expiry_date = e.shelf_life_expiry_date;
  last_movement_date = none;
  version = 0;
}

-- The other branch: a row that is there keeps the older receipt and the sooner expiry.
unfoldable pub merge_dates : Entry → Balance → Balance
merge_dates e b = record b {
  first_receipt_date = keep_older e.first_receipt_date b.first_receipt_date;
  shelf_life_expiry_date = keep_older e.shelf_life_expiry_date b.shelf_life_expiry_date;
}

-- The row that the posting writes, before its quantity changes.
unfoldable pub upsert_doc : Env → Entry → Option Balance → Balance
upsert_doc env e none = new_balance env e
upsert_doc env e (some b) = merge_dates e b

abbrev flag_owner : Entry → Option Balance → Option Bool → Option Bool
flag_owner e none flag = if any_owner (dim_values e) then some true else flag
flag_owner e (some b) flag = flag

-- `doc.save()` of the row with its new quantity.
unfoldable pub moved : Env → ℤ → Balance → Balance
moved env delta doc = record doc {
  quantity = doc.quantity +ℤ delta;
  available_quantity = doc.quantity +ℤ delta -ℤ doc.allocated_quantity;
  last_movement_date = some env.now;
  version = doc.version + 1;
}

-- The row as it stands in the table, or the new one.
unfoldable pub target_doc : Env → Entry → Db → Balance
target_doc env e db = upsert_doc env e (find_balance (entry_name env e) db.balances)

-- What a posting that is not refused leaves in the database.
unfoldable pub upserted : Env → Entry → Db → Db
upserted env e db = record db {
  balances = save_balance (moved env e.quantity (target_doc env e db)) db.balances;
  wms_owner_stock = flag_owner e (find_balance (entry_name env e) db.balances) db.wms_owner_stock;
}

unfoldable pub upsert_balance : Env → Entry → Db → Result Error Db
upsert_balance env e db =
    if ltb_ℤ ((target_doc env e db).quantity +ℤ e.quantity) (pos 0)
      && not (env.allow_negative_stock e.place.warehouse)
    then err insufficient_stock
    else ok (upserted env e db)

-- The row with `quantity` less reserved, never below zero.
unfoldable pub release_row : ℤ → Balance → Balance
release_row quantity b =
    let left = max_ℤ (b.allocated_quantity -ℤ quantity) (pos 0) in
    record b { allocated_quantity = left; available_quantity = b.quantity -ℤ left }

unfoldable pub release_allocation : Env → Place → OwnerKeys Name → ℤ → Db → Db
release_allocation env p o quantity db = elim (find_balance (balance_name env p o) db.balances) [
  | none ↦ db
  | some b ↦ record db { balances = save_balance (release_row quantity b) db.balances }
]
