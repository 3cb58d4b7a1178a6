-- ===== src/Tests/Data.antt =====
-- A warehouse with stock, for the tests: 10 units of product 2 are received in bin 5.
use frappe_ewm.Base.{
  List, Name, Option, Result, [], err, false, negsuc, none, ok, pos, some, ℕ, ◌*◌, ◌+ℤ◌, ◌+◌, ◌-ℤ◌,
  ◌∷◌,
}
use frappe_ewm.Stock.Balance.{
  merge_dates, moved, new_balance, target_doc, upsert_balance, upsert_doc, upserted,
}
use frappe_ewm.Stock.Measure.{recompute_all}
use frappe_ewm.Stock.Naming.{balance_name, raw_name}
use frappe_ewm.Stock.Owner.{
  owner_pool, owner_stock_exists, resolve_from, resolve_owner, source_rows,
}
use frappe_ewm.Stock.Posting.{
  Reference, insert_ledger, key_below, key_exists, ledger_entry, names_below, post_all,
  post_entries, post_new, post_one, resolve_all, total_quantity, touched_hus, wrong_serial,
}
use frappe_ewm.Stock.Rows.{find_balance, same_place, save_balance}
use frappe_ewm.Stock.Transfer.{Destination, Source, transfer_in, transfer_out, transfer_stock}
use frappe_ewm.Stock.Types.{Db, Entry, Env, OwnerKeys, Place}

-- A digest that tells the texts of the tests apart.
abbrev pub digest : List ℕ → Name
digest [] = 1
digest (n ∷ ns) = n + 31 * digest ns

abbrev pub env : Env
env = record {
  sha256 = digest;
  text = λ n. n ∷ [];
  now = 500;
  session_user = 9;
  ledger_name = λ n. 9000 + n;
  allow_negative_stock = λ w. false;
  gross_weight_per_unit = λ p. 2;
  volume_per_unit = λ p. 1;
  maximum_weight = λ t. pos 0;
  maximum_volume = λ t. pos 0;
}

abbrev pub receiving_bin : Place
receiving_bin = record {
  warehouse = 1;
  product = 2;
  batch_no = 0;
  serial_no = 0;
  handling_unit = 0;
  storage_bin = 5;
  stock_type = 4;
}

abbrev pub unnamed : OwnerKeys (Option Name)
unnamed = record {
  stock_owner = none;
  entitled_party = none;
  country_of_origin = none;
  special_stock_type = none;
  special_stock_ref = none;
  consolidation_group = none;
}

-- Stock of owner 8.
abbrev pub of_owner : OwnerKeys (Option Name)
of_owner = record unnamed { stock_owner = some 8 }

abbrev pub receipt : Entry
receipt = record {
  place = receiving_bin;
  owner = of_owner;
  quantity = pos 10000000;
  stock_uom = 3;
  movement_type = 6;
  reference_line = 0;
  posting_datetime = none;
  first_receipt_date = none;
  shelf_life_expiry_date = some 900;
}

abbrev pub reference : ℕ → Reference
reference key = record {
  reference_doctype = 1;
  reference_name = 1;
  idempotency_key = key ∷ [];
  warehouse_task = 0;
  device = 0;
}

abbrev pub no_stock : Db
no_stock = record { balances = []; ledger = []; handling_units = []; wms_owner_stock = none }

abbrev pub from_ok {ℓ} : {E : Type 0} {A : Type ℓ} → A → Result E A → A
from_ok d (ok a) = a
from_ok d (err e) = d

abbrev pub received : List Name × Db
unfolding post_entries post_new resolve_all resolve_owner owner_stock_exists source_rows owner_pool
    resolve_from wrong_serial post_all post_one upsert_balance upserted target_doc upsert_doc
    new_balance merge_dates moved insert_ledger ledger_entry key_exists names_below key_below
    total_quantity touched_hus recompute_all find_balance save_balance same_place raw_name
    balance_name ◌+ℤ◌ ◌-ℤ◌
received = from_ok ([], no_stock) (post_entries env (receipt ∷ []) (reference 1) no_stock)

-- Two of the units go to bin 6.
abbrev pub source : Source
source = record { place = receiving_bin; owner = unnamed; stock_uom = 3 }

abbrev pub destination : Destination
destination = record {
  handling_unit = 0;
  storage_bin = 6;
  stock_type = 4;
  product = none;
  batch_no = none;
  warehouse = none;
  serial_no = none;
  stock_uom = none;
  owner = unnamed;
  first_receipt_date = none;
  shelf_life_expiry_date = none;
}

-- The two entries of the same move, for `post_entries`.
abbrev pub move : List Entry
move =
    record receipt { quantity = negsuc 1999999 }
    ∷ record receipt { place = record receiving_bin { storage_bin = 6 }; quantity = pos 2000000 }
    ∷ []

abbrev pub posted : List Name × Db
unfolding post_entries post_new resolve_all resolve_owner owner_stock_exists source_rows owner_pool
    resolve_from wrong_serial post_all post_one upsert_balance upserted target_doc upsert_doc
    new_balance merge_dates moved insert_ledger ledger_entry key_exists names_below key_below
    total_quantity touched_hus recompute_all find_balance save_balance same_place raw_name
    balance_name ◌+ℤ◌ ◌-ℤ◌
posted = from_ok ([], no_stock) (post_entries env move (reference 2) received.1)

abbrev pub transferred : List Name × Db
unfolding transfer_stock transfer_out transfer_in post_entries post_new resolve_all resolve_owner
    owner_stock_exists source_rows owner_pool resolve_from wrong_serial post_all post_one
    upsert_balance upserted target_doc upsert_doc new_balance merge_dates moved insert_ledger
    ledger_entry key_exists names_below key_below total_quantity touched_hus recompute_all
    find_balance save_balance same_place raw_name balance_name ◌+ℤ◌ ◌-ℤ◌
transferred =
    from_ok ([], no_stock)
      (transfer_stock env source destination (pos 2000000) 6 (reference 2) received.1)

-- A decrement that names no owner.
abbrev pub anonymous : Entry
anonymous = record receipt { owner = unnamed; quantity = negsuc 1999999 }

abbrev pub resolved : Entry × Db
unfolding post_entries post_new resolve_all resolve_owner owner_stock_exists source_rows owner_pool
    resolve_from wrong_serial post_all post_one upsert_balance upserted target_doc upsert_doc
    new_balance merge_dates moved insert_ledger ledger_entry key_exists names_below key_below
    total_quantity touched_hus recompute_all find_balance save_balance same_place raw_name
    balance_name ◌+ℤ◌ ◌-ℤ◌
resolved = from_ok (receipt, no_stock) (resolve_owner anonymous received.1)

abbrev pub no_owner : OwnerKeys Name
no_owner = record {
  stock_owner = 0;
  entitled_party = 0;
  country_of_origin = 0;
  special_stock_type = 0;
  special_stock_ref = 0;
  consolidation_group = 0;
}
