-- ===== src/Difference/Record.antt =====
-- The operations of frappe_wms/services/difference.py.
use frappe_ewm.Base.{
  Name, Option, Result, [], err, if◌then◌else◌, is_set, length, none, ok, or_name, some, ℕ, ℤ, ◌++◌,
  ◌>>=◌, ◌∷◌,
}
use frappe_ewm.Difference.Types.{
  DifferenceError, Session, Task, TaskDifference, World, no_difference_bin, open_difference, over,
  posting, short,
}
use frappe_ewm.Stock.Naming.{any_owner, map_keys}
use frappe_ewm.Stock.Posting.{Reference, post_entries}
use frappe_ewm.Stock.Types.{Entry, Error, Key, OwnerKeys}

-- Select values, document types, movement types and the text "TDIFF-CLEAR".
abbrev pub surplus : Name
surplus = 80

abbrev pub missing : Name
missing = 81

abbrev pub gain_movement : Name
gain_movement = 701

abbrev pub transfer_movement : Name
transfer_movement = 301

abbrev pub task_doctype : Name
task_doctype = 82

abbrev pub difference_doctype : Name
difference_doctype = 83

abbrev pub tdiff_clear : ℕ
tdiff_clear = 84

-- `difference_bin_for_warehouse`
unfoldable pub difference_bin : Session → Name → Result DifferenceError Name
difference_bin s warehouse =
    let bin = s.default_difference_bin warehouse in
    if is_set bin then ok bin else err no_difference_bin

abbrev pub no_owner_keys : OwnerKeys (Option Name)
no_owner_keys = record {
  stock_owner = none;
  entitled_party = none;
  country_of_origin = none;
  special_stock_type = none;
  special_stock_ref = none;
  consolidation_group = none;
}

-- The extra goods are the task's owner's.
unfoldable pub task_owner : Task → OwnerKeys (Option Name)
task_owner t = if any_owner t.owner then map_keys some t.owner else no_owner_keys

unfoldable pub over_entry : Task → Name → ℤ → Entry
over_entry t bin excess = record {
  place = record {
    warehouse = t.warehouse;
    product = t.product;
    batch_no = t.batch_no;
    serial_no = t.serial_no;
    handling_unit = 0;
    storage_bin = bin;
    stock_type = or_name t.stock_type_to t.stock_type_from;
  };
  owner = task_owner t;
  quantity = excess;
  stock_uom = t.stock_uom;
  movement_type = gain_movement;
  reference_line = t.name;
  posting_datetime = none;
  first_receipt_date = none;
  shelf_life_expiry_date = none;
}

unfoldable pub over_difference_of : Session → Task → Name → ℤ → ℕ → TaskDifference
over_difference_of s t bin excess number = record {
  name = s.difference_name number;
  warehouse = t.warehouse;
  warehouse_task = t.name;
  task_type = t.task_type;
  product = t.product;
  stock_uom = t.stock_uom;
  batch_no = t.batch_no;
  serial_no = t.serial_no;
  direction = over;
  planned_quantity = t.planned_quantity;
  difference_quantity = excess;
  stock_type = or_name t.stock_type_to t.stock_type_from;
  storage_bin = bin;
  exception_code = 0;
  clearance_remarks = 0;
  difference_category = surplus;
  status = open_difference;
  cleared_by = 0;
  cleared_at = none;
  cleared_to_bin = 0;
}

abbrev pub posting_result : {A : Type 0} → Result Error A → Result DifferenceError A
posting_result (err e) = err (posting e)
posting_result (ok a) = ok a

unfoldable pub task_reference : Task → Key → Reference
task_reference t key = record {
  reference_doctype = task_doctype;
  reference_name = t.name;
  idempotency_key = key;
  warehouse_task = 0;
  device = 0;
}

-- `record_over_difference`
unfoldable pub record_over_difference :
    Session → Task → ℤ → Key → World → Result DifferenceError (TaskDifference × World)
record_over_difference s t excess key w = do
  bin ← difference_bin s t.warehouse
  (created, db) ←
      posting_result
        (post_entries s.env (over_entry t bin excess ∷ []) (task_reference t key) w.stock)
  let d = over_difference_of s t bin excess (length w.differences)
  ok (
    d,
    record w {
      stock = db;
      differences = w.differences ++ d ∷ [];
      dispatched = w.dispatched ++ d.name ∷ [];
    },
  )

unfoldable pub short_category : Session → Name → Name
short_category s code = if is_set code then or_name (s.exception_category code) missing else missing

-- `record_short_difference`
unfoldable pub record_short_difference :
    Session → Task → ℤ → ℤ → Name → Name → World → TaskDifference × World
record_short_difference s t shortfall original code remarks w =
    let d : TaskDifference = record {
      name = s.difference_name (length w.differences);
      warehouse = t.warehouse;
      warehouse_task = t.name;
      task_type = t.task_type;
      product = t.product;
      stock_uom = t.stock_uom;
      batch_no = t.batch_no;
      serial_no = t.serial_no;
      direction = short;
      planned_quantity = original;
      difference_quantity = shortfall;
      stock_type = t.stock_type_from;
      storage_bin = 0;
      exception_code = code;
      clearance_remarks = remarks;
      difference_category = short_category s code;
      status = open_difference;
      cleared_by = 0;
      cleared_at = none;
      cleared_to_bin = 0;
    } in
    (d, record w { differences = w.differences ++ d ∷ [] })
