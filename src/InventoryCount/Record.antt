-- ===== src/InventoryCount/Record.antt =====
-- How a count of frappe_wms/services/inventory_count.py is started, recorded and called off.
use frappe_ewm.Base.{
  Bool, List, Name, Option, Result, [], any, eqb_ℤ, if◌then◌else◌, is_set, leb_ℤ, length, ltb,
  ltb_ℤ, none, not, ok, one_unit, or_name, pos, some, throw_if, true, ℕ, ℤ, ◌&&◌, ◌++◌, ◌-ℤ◌, ◌==◌,
  ◌>>=◌, ◌>>◌, ◌||◌, ◌∷◌,
}
use frappe_ewm.InventoryCount.Snapshot.{
  distinct_names, is_open_row, is_over, is_recording, is_removal_blocked, release_blocked_bins,
  require_role, set_blocked,
}
use frappe_ewm.InventoryCount.Types.{
  Count, CountError, CountStatus, Row, Session, World, cancelled, counted, counting, negative_count,
  not_cancellable, not_open, not_positive_found, row_counted, same_counter, serial_not_one,
}

-- The status that a recording leaves.
unfoldable pub recorded_status : CountStatus → List Row → CountStatus
recorded_status old rows = if not (any is_open_row rows) then counted else old

-- The arguments of `add_found_line`.
pub record Found : Type 0 where
  pub product : Name
  pub storage_bin : Name
  pub stock_type : Name
  pub quantity : ℤ
  pub batch_no : Name
  pub serial_no : Name
  pub handling_unit : Name
  pub stock_uom : Name

unfoldable pub found_row : Session → Found → ℕ → Row
found_row s f i = record {
  name = s.row_name i;
  product = f.product;
  batch_no = f.batch_no;
  serial_no = f.serial_no;
  handling_unit = f.handling_unit;
  storage_bin = f.storage_bin;
  stock_type = f.stock_type;
  stock_uom = or_name f.stock_uom (s.stock_uom f.product);
  book_quantity = pos 0;
  counted_quantity = some f.quantity;
  variance = some f.quantity;
  status = row_counted;
  counted_by = 0;
  recount_count = 0;
  tolerance_group = 0;
}

-- The bin of a found line is blocked too, unless it was for another reason.
unfoldable pub block_found : Name → Count → World → Count × World
block_found bin doc w =
    if is_set bin && not (is_removal_blocked bin w.bins)
    then (
      record doc { blocked_bins = distinct_names (bin ∷ doc.blocked_bins) },
      record w { bins = set_blocked true (bin ∷ []) w.bins },
    )
    else (doc, w)

-- `add_found_line`
unfoldable pub add_found_line : Session → Found → Count → World → Result CountError (Count × World)
add_found_line s f doc w = do
  require_role s
  throw_if (not (is_recording doc.status)) not_open
  throw_if (leb_ℤ f.quantity (pos 0)) not_positive_found
  throw_if (is_set f.serial_no && not (eqb_ℤ f.quantity one_unit)) serial_not_one
  let items = doc.items ++ found_row s f (length doc.items) ∷ []
  let (doc1, w1) = block_found f.storage_bin (record doc { items = items }) w
  ok (record doc1 { status = recorded_status doc.status items }, w1)

-- `cancel_count`
unfoldable pub cancel_count : Session → Count → World → Result CountError (Count × World)
cancel_count s doc w = do
  require_role s
  throw_if (is_over doc.status) not_cancellable
  ok (record doc { status = cancelled }, release_blocked_bins doc w)

abbrev lookup : Name → List (Name × ℤ) → Option ℤ
lookup n [] = none
lookup n ((m, q) ∷ rest) = let found = lookup n rest in if m == n then some q else found

-- A recount by the same user where the warehouse forbids it.
unfoldable pub same_user : Session → Name → Row → Bool
same_user s warehouse r =
    ltb 0 r.recount_count && (r.counted_by == s.user) && s.recount_different_user warehouse

unfoldable pub count_row : Session → Name → Row → ℤ → Result CountError Row
count_row s warehouse r q = do
  throw_if (ltb_ℤ q (pos 0)) negative_count
  throw_if (is_set r.serial_no && not (eqb_ℤ q (pos 0) || eqb_ℤ q one_unit)) serial_not_one
  throw_if (same_user s warehouse r) same_counter
  ok (record r {
    counted_by = s.user;
    counted_quantity = some q;
    variance = some (q -ℤ r.book_quantity);
    status = row_counted;
  })

unfoldable pub record_row : Session → Name → List (Name × ℤ) → Row → Result CountError Row
record_row s warehouse given r = elim (lookup r.name given) [
  | none ↦ ok r
  | some q ↦ count_row s warehouse r q
]

unfoldable pub record_rows :
    Session → Name → List (Name × ℤ) → List Row → Result CountError (List Row)
record_rows s warehouse given [] = ok []
record_rows s warehouse given (r ∷ rs) = do
  r' ← record_row s warehouse given r
  rs' ← record_rows s warehouse given rs
  ok (r' ∷ rs')

-- `record_counts`
unfoldable pub record_counts :
    Session → List (Name × ℤ) → Count → World → Result CountError (Count × World)
record_counts s given doc w = do
  require_role s
  throw_if (not (is_recording doc.status)) not_open
  rows ← record_rows s doc.warehouse given doc.items
  ok (record doc { items = rows; status = recorded_status counting rows }, w)
