-- ===== src/InventoryCount/Variance.antt =====
-- The tolerance of a variance and its posting, in frappe_wms/services/inventory_count.py.
use frappe_ewm.Base.{
  Bool, Name, Option, Result, [], eqb_ℤ, err, false, find, from_option, if◌then◌else◌, is_set, leb,
  ltb, ltb_ℤ, neg_part, none, not, ok, pos, pos_part, some, throw_if, ℕ, ℤ, ◌&&◌, ◌*◌, ◌+ℤ◌, ◌+◌,
  ◌==◌, ◌>>=◌, ◌>>◌, ◌||◌, ◌∷◌,
}
use frappe_ewm.InventoryCount.Types.{
  Count, CountError, Row, Session, ToleranceGroup, posting, reserved, row_posted,
}
use frappe_ewm.Stock.Posting.{Reference, post_entries}
use frappe_ewm.Stock.Types.{Balance, Db, Entry, Error}

-- A rule that names the warehouse and the item group, or leaves them open.
unfoldable pub matches_group : Session → Name → Name → ToleranceGroup → Bool
matches_group s warehouse item g =
    (not (is_set g.warehouse) || (g.warehouse == warehouse))
    && (not (is_set g.item_group) || (g.item_group == s.item_group item))

-- `_matching_tolerance_group`
unfoldable pub matching_tolerance_group : Session → Name → Name → Option ToleranceGroup
matching_tolerance_group s warehouse item = find (matches_group s warehouse item) s.tolerance_groups

abbrev pub size : ℤ → ℕ
size a = pos_part a + neg_part a

-- `_within_tolerance`; the comparison of percentages is multiplied out.
unfoldable pub within_tolerance : ToleranceGroup → ℤ → ℤ → Bool
within_tolerance g variance book_quantity =
    (ltb 0 g.tolerance_quantity && leb (size variance) g.tolerance_quantity)
    || (not (size book_quantity == 0)
        && leb (size variance * 100 * 1000000) (g.tolerance_percentage * size book_quantity))

-- `flt(row.variance)`
abbrev pub variance_of : Row → ℤ
variance_of r = from_option (pos 0) r.variance

unfoldable pub is_row_balance : Count → Row → Balance → Bool
is_row_balance doc r b =
    (b.place.warehouse == doc.warehouse)
    && (b.place.product == r.product)
    && (b.place.storage_bin == r.storage_bin)
    && (b.place.handling_unit == r.handling_unit)
    && (b.place.batch_no == r.batch_no)
    && (b.place.serial_no == r.serial_no)
    && (b.place.stock_type == r.stock_type)

-- The units that would be left are fewer than those reserved, by more than a millionth.
abbrev pub takes_reserved : ℤ → Option Balance → Bool
takes_reserved variance none = false
takes_reserved variance (some b) = ltb_ℤ (b.quantity +ℤ variance +ℤ pos 1) b.allocated_quantity

-- The select values and document type that a posting names.
abbrev pub gain_movement : Name
gain_movement = 701

abbrev pub loss_movement : Name
loss_movement = 702

abbrev pub count_doctype : Name
count_doctype = 60

-- The text "PIC" that a key begins with.
abbrev pub pic : ℕ
pic = 61

unfoldable pub count_entry : Count → Row → Entry
count_entry doc r = record {
  place = record {
    warehouse = doc.warehouse;
    product = r.product;
    batch_no = r.batch_no;
    serial_no = r.serial_no;
    handling_unit = r.handling_unit;
    storage_bin = r.storage_bin;
    stock_type = r.stock_type;
  };
  owner = record {
    stock_owner = none;
    entitled_party = none;
    country_of_origin = none;
    special_stock_type = none;
    special_stock_ref = none;
    consolidation_group = none;
  };
  quantity = variance_of r;
  stock_uom = r.stock_uom;
  movement_type = if ltb_ℤ (pos 0) (variance_of r) then gain_movement else loss_movement;
  reference_line = r.name;
  posting_datetime = none;
  first_receipt_date = none;
  shelf_life_expiry_date = none;
}

unfoldable pub count_reference : Count → ℕ → Reference
count_reference doc i = record {
  reference_doctype = count_doctype;
  reference_name = doc.name;
  idempotency_key = pic ∷ doc.name ∷ i ∷ [];
  warehouse_task = 0;
  device = 0;
}

abbrev pub posting_result : {A : Type 0} → Result Error A → Result CountError A
posting_result (err e) = err (posting e)
posting_result (ok a) = ok a

-- The posting of a line's variance, if there is one.
unfoldable pub post_variance : Session → Count → Row → ℕ → Db → Result CountError Db
post_variance s doc r i db = if eqb_ℤ (variance_of r) (pos 0) then ok db else (do
  (created, db') ←
      posting_result (post_entries s.env (count_entry doc r ∷ []) (count_reference doc i) db)
  ok db')

-- `_post_row`
unfoldable pub post_row : Session → Count → Row → ℕ → Db → Result CountError (Row × Db)
post_row s doc r i db = do
  throw_if
      (ltb_ℤ (variance_of r) (pos 0)
        && takes_reserved (variance_of r) (find (is_row_balance doc r) db.balances))
      reserved
  db' ← post_variance s doc r i db
  ok (record r { status = row_posted }, db')
