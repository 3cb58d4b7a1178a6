-- ===== src/PostingChange/Change.antt =====
-- `sides`, the move, and the life of a change in frappe_wms/services/posting_change.py.
use frappe_ewm.Base.{
  Bool, Name, Option, Result, [], eqb_ℤ, err, false, if◌then◌else◌, is_set, ltb_ℤ, none, not, ok,
  pos, some, throw_if, true, ℤ, ◌&&◌, ◌++◌, ◌+ℤ◌, ◌==◌, ◌>>=◌, ◌>>◌, ◌||◌, ◌∷◌,
}
use frappe_ewm.PostingChange.Sides.{
  after_side, before_side, identity_eq, move_change, place_of, psc, psc_rev,
}
use frappe_ewm.PostingChange.Types.{
  Change, ChangeError, ChangeStatus, Identity, Session, World, already_posted, cancelled_change,
  draft_change, half_special, mixed, no_balance, not_free, not_managed, not_permitted, not_posted,
  nothing_changes, posted_change, serial_fixed, wrong_batch,
}
use frappe_ewm.Stock.Naming.{balance_name}
use frappe_ewm.Stock.Rows.{find_balance}
use frappe_ewm.Stock.Types.{Balance, Db, OwnerKeys}

abbrev pub has_free : ℤ → Option Balance → Bool
has_free quantity none = false
has_free quantity (some b) = not (ltb_ℤ (b.available_quantity +ℤ pos 1) quantity)

-- The row that the change takes stock from.
unfoldable pub changed_row : Session → Change → Db → Option Balance
changed_row s doc db =
    find_balance (balance_name s.env (place_of doc (before_side doc)) (before_side doc).owner)
      db.balances

unfoldable pub half_special_stock : Identity → Bool
half_special_stock i =
    (is_set i.owner.special_stock_type && not (is_set i.owner.special_stock_ref))
    || (is_set i.owner.special_stock_ref && not (is_set i.owner.special_stock_type))

unfoldable pub other_product : Identity → Identity → Bool
other_product a b = not (b.product == a.product)

unfoldable pub other_batch : Identity → Identity → Bool
other_batch a b = not (b.batch_no == a.batch_no)

-- `validate_change`
unfoldable pub validate_change : Session → Change → Db → Result ChangeError (Unit {0})
validate_change s doc db =
    let a = before_side doc in
    let b = after_side doc in
    do
      throw_if (identity_eq a b) nothing_changes
      throw_if ((other_product a b || other_batch a b) && is_set doc.serial_no) serial_fixed
      throw_if (other_product a b && not (s.is_warehouse_managed b.product)) not_managed
      throw_if (is_set b.batch_no && not (s.batch_item b.batch_no == b.product)) wrong_batch
      throw_if (half_special_stock b) half_special
      throw_if (not (has_free doc.quantity (changed_row s doc db))) not_free
      ok tt

abbrev if_changed : Name → Name → Option Name
if_changed old new = if new == old then none else some new

-- `_check_mixing`
unfoldable pub check_mixing : Session → Change → Db → Result ChangeError (Unit {0})
check_mixing s doc db =
    let a = before_side doc in
    let b = after_side doc in
    throw_if
      (is_set doc.storage_bin
        && s.mixing_violations doc.storage_bin (if_changed a.product b.product)
            (if_changed a.stock_type b.stock_type) (if_changed a.batch_no b.batch_no) db)
      mixed

abbrev pub is_draft_change : ChangeStatus → Bool
is_draft_change draft_change = true
is_draft_change _ = false

abbrev pub is_posted_change : ChangeStatus → Bool
is_posted_change posted_change = true
is_posted_change _ = false

unfoldable pub mark_posted : Session → Change → Change
mark_posted s doc = record doc {
  status = posted_change;
  posted_by = s.user;
  posted_at = some s.now;
}

-- `post_posting_change`
unfoldable pub post_posting_change :
    Session → Bool → Change → World → Result ChangeError (Change × World)
post_posting_change s checks_mixing doc w = do
  throw_if (not s.has_role) not_permitted
  throw_if (not (is_draft_change doc.status)) already_posted
  validate_change s doc w.stock
  db ← move_change s doc true psc w.stock
  if checks_mixing then check_mixing s doc db else ok tt
  ok (mark_posted s doc, record w { stock = db; dispatched = w.dispatched ++ doc.name ∷ [] })

-- The submitted Stock Entry of the change is cancelled with it.
unfoldable pub cancel_entry : Session → Change → World → World
cancel_entry s doc w =
    if is_set doc.erpnext_stock_entry && s.is_submitted doc.erpnext_stock_entry
    then record w { cancelled_entries = w.cancelled_entries ++ doc.erpnext_stock_entry ∷ [] }
    else w

-- `cancel_posting_change`
unfoldable pub cancel_posting_change :
    Session → Change → World → Result ChangeError (Change × World)
cancel_posting_change s doc w = do
  throw_if (not s.has_role) not_permitted
  throw_if (not (is_posted_change doc.status)) not_posted
  db ← move_change s doc false psc_rev w.stock
  ok (record doc { status = cancelled_change }, cancel_entry s doc (record w { stock = db }))

-- What the user asks of a stock line: `line`, `to_stock_type` and `changes`.
pub record Wanted : Type 0 where
  pub name : Name
  pub quantity : ℤ
  pub reason : Name
  pub to_stock_type : Name
  pub to_product : Name
  pub to_batch_no : Name
  pub to_owner : OwnerKeys Name

unfoldable pub change_of : Session → Wanted → Balance → Change
change_of s line b = record {
  name = s.new_name;
  warehouse = b.place.warehouse;
  product = b.place.product;
  batch_no = b.place.batch_no;
  serial_no = b.place.serial_no;
  handling_unit = b.place.handling_unit;
  storage_bin = b.place.storage_bin;
  from_stock_type = b.place.stock_type;
  to_stock_type = line.to_stock_type;
  quantity = if eqb_ℤ line.quantity (pos 0) then b.available_quantity else line.quantity;
  stock_uom = b.stock_uom;
  reason = line.reason;
  status = draft_change;
  owner = record b.owner { consolidation_group = 0 };
  to_product = line.to_product;
  to_batch_no = line.to_batch_no;
  to_owner = record line.to_owner { consolidation_group = 0 };
  erpnext_stock_entry = 0;
  posted_by = 0;
  posted_at = none;
}

-- `create_posting_change`
unfoldable pub create_posting_change : Session → Wanted → Db → Result ChangeError Change
create_posting_change s line db = do
  throw_if (not s.has_role) not_permitted
  elim (find_balance line.name db.balances) [
    | none ↦ err no_balance
    | some b ↦ ok (change_of s line b)
  ]

-- `_after_balance`
unfoldable pub after_balance : Session → Change → Name
after_balance s doc = balance_name s.env (place_of doc (after_side doc)) (after_side doc).owner
