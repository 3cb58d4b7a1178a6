-- ===== src/PostingChange/Moved.antt =====
-- What the move of a change in frappe_wms/services/posting_change.py does to the rows of stock.
use frappe_ewm.Base.{
  >>=-eq-ok, Bool, Name, Result, [], arith, err, false, if◌then◌else◌, is_set, not, ok, or_name,
  refl, true, ℕ, ℤ, ◌+ℤ◌, ◌||◌, ◌∷◌, ◌≡◌,
}
use frappe_ewm.PostingChange.Sides.{
  after_side, before_side, change_movement, change_reference, changed_owner, destination_of,
  move_between, move_change, place_of, posting_result, psc, psc_rev, source_of,
}
use frappe_ewm.PostingChange.Types.{Change, Identity, Session}
use frappe_ewm.Stock.Balance.{moved}
use frappe_ewm.Stock.Moves.{landing_owner, landing_place, moves_by, transfer_stock-moves}
use frappe_ewm.Stock.Naming.{balance_name, dim_values}
use frappe_ewm.Stock.Owner.{resolve_owner}
use frappe_ewm.Stock.Posting.{entry_key, key_exists}
use frappe_ewm.Stock.Rows.{quantity_of}
use frappe_ewm.Stock.Source.{resolve_owner_idle}
use frappe_ewm.Stock.Transfer.{transfer_out, transfer_stock}
use frappe_ewm.Stock.Types.{Db, Entry, Error, OwnerKeys, Place}

-- Where the changed stock lies before and after: the bin and the unit stay, and what the change does
-- not name stays; a batch belongs to its product.
abbrev pub place_before : Change → Place
place_before doc = record {
  warehouse = doc.warehouse;
  product = doc.product;
  batch_no = doc.batch_no;
  serial_no = doc.serial_no;
  handling_unit = doc.handling_unit;
  storage_bin = doc.storage_bin;
  stock_type = doc.from_stock_type;
}

abbrev pub place_after : Change → Place
place_after doc = record (place_before doc) {
  product = or_name doc.to_product doc.product;
  batch_no =
      if is_set doc.to_product || is_set doc.to_batch_no then doc.to_batch_no else doc.batch_no;
  stock_type = or_name doc.to_stock_type doc.from_stock_type;
}

-- Whose it is after: as the change names, or as it was; the consolidation group stays.
abbrev pub owner_after : Change → OwnerKeys Name
owner_after doc = record doc.owner {
  stock_owner = or_name doc.to_owner.stock_owner doc.owner.stock_owner;
  entitled_party = or_name doc.to_owner.entitled_party doc.owner.entitled_party;
  country_of_origin = or_name doc.to_owner.country_of_origin doc.owner.country_of_origin;
  special_stock_type = or_name doc.to_owner.special_stock_type doc.owner.special_stock_type;
  special_stock_ref = or_name doc.to_owner.special_stock_ref doc.owner.special_stock_ref;
}

abbrev pub row_before : Session → Change → Name
row_before s doc = balance_name s.env (place_before doc) doc.owner

abbrev pub row_after : Session → Change → Name
row_after s doc = balance_name s.env (place_after doc) (owner_after doc)

-- The row of one side.
abbrev side_row : Session → Change → Identity → Name
side_row s doc side = balance_name s.env (place_of doc side) side.owner

side_row-before : (s : Session) (doc : Change) → side_row s doc (before_side doc) ≡ row_before s doc
unfolding place_of before_side
side_row-before s doc = refl

side_row-after : (s : Session) (doc : Change) → side_row s doc (after_side doc) ≡ row_after s doc
unfolding place_of after_side changed_owner
side_row-after s doc = ground arith

posting_result-ok : {A : Type 0} (r : Result Error A) {a : A} → posting_result r ≡ ok a → r ≡ ok a
posting_result-ok (err e) h = cc h
posting_result-ok (ok a) h = cc h

abbrev pub is_new_posting : Change → ℕ → Db → Bool
is_new_posting doc kind db = not (key_exists (entry_key (kind ∷ doc.name ∷ []) 1) db.ledger)

-- The source names all its owner dimensions, so it is booked from just the row that it names.
named_source :
    (s : Session) (doc : Change) (side : Identity) (q : ℤ) (mt : Name) (db : Db) {o : Entry × Db}
    → resolve_owner (transfer_out (source_of s doc side) q mt) db ≡ ok o
    → dim_values o.0 ≡ side.owner
unfolding transfer_out source_of
named_source s doc side q mt db {o} resolving =
    let idle = resolve_owner_idle (transfer_out (source_of s doc side) q mt) db refl in
    let same : o.0 ≡ transfer_out (source_of s doc side) q mt = cc (resolving, idle) in rw same refl

side_lands :
    (s : Session) (doc : Change) (one two : Identity)
    → (landing_place (source_of s doc one) (destination_of s doc two) ≡ place_of doc two)
      × ((o : OwnerKeys Name) → landing_owner (destination_of s doc two).owner o ≡ two.owner)
      × ((source_of s doc one).place ≡ place_of doc one)
unfolding source_of destination_of place_of
side_lands s doc one two = (refl, λ o. refl, refl)

move_between-moves :
    (s : Session) (doc : Change) (one two : Identity) (kind : ℕ) (db : Db) {out : Db}
    → is_new_posting doc kind db ≡ true
    → move_between s doc one two kind db ≡ ok out
    → (n : Name)
    → quantity_of n out.balances
      ≡ quantity_of n db.balances
        +ℤ moves_by doc.quantity (side_row s doc one) (side_row s doc two) n
unfolding move_between change_reference
move_between-moves s doc one two kind db {out} fresh goes n =
    let source = source_of s doc one in
    let dest = destination_of s doc two in
    let (moved, transferred, ends) =
      >>=-eq-ok
        (posting_result (
          transfer_stock s.env source dest doc.quantity change_movement (change_reference doc kind)
            db))
        (λ x. ok x.1) {b = out} goes in
    let (_, probe, _, resolving, rows) =
      transfer_stock-moves s.env source dest doc.quantity change_movement
        (change_reference doc kind) db {out = moved} (ground arith)
        (posting_result-ok _ transferred) in
    let owner = named_source s doc one doc.quantity change_movement db resolving in
    let (there, whose, here) = side_lands s doc one two in
    let stock : moved.1 ≡ out = cc ends in
    cc (rows n, owner, there, whose (dim_values probe), here, stock)

pub move_change-moves :
    (s : Session) (doc : Change) (db : Db) {out : Db} (n : Name)
    → is_new_posting doc psc db ≡ true
    → move_change s doc true psc db ≡ ok out
    → quantity_of n out.balances
      ≡ quantity_of n db.balances +ℤ moves_by doc.quantity (row_before s doc) (row_after s doc) n
unfolding move_change
move_change-moves s doc db n fresh goes =
    let rows = move_between-moves s doc (before_side doc) (after_side doc) psc db fresh goes n in
    cc (rows, side_row-before s doc, side_row-after s doc)

pub move_change-moves_back :
    (s : Session) (doc : Change) (db : Db) {out : Db} (n : Name)
    → is_new_posting doc psc_rev db ≡ true
    → move_change s doc false psc_rev db ≡ ok out
    → quantity_of n out.balances
      ≡ quantity_of n db.balances +ℤ moves_by doc.quantity (row_after s doc) (row_before s doc) n
unfolding move_change
move_change-moves_back s doc db n fresh goes =
    let rows =
      move_between-moves s doc (after_side doc) (before_side doc) psc_rev db fresh goes n in
    cc (rows, side_row-before s doc, side_row-after s doc)
