-- ===== src/PostingChange/Sides.antt =====
-- `sides` and the move of a change in frappe_wms/services/posting_change.py.
use frappe_ewm.Base.{
  Bool, Name, Result, [], err, false, if◌then◌else◌, is_set, none, ok, or_name, some, true, ℕ, ◌&&◌,
  ◌==◌, ◌>>=◌, ◌∷◌,
}
use frappe_ewm.PostingChange.Types.{Change, ChangeError, Identity, Session, posting}
use frappe_ewm.Stock.Naming.{map_keys}
use frappe_ewm.Stock.Posting.{Reference}
use frappe_ewm.Stock.Transfer.{Destination, Source, transfer_stock}
use frappe_ewm.Stock.Types.{Db, Error, OwnerKeys, Place}

unfoldable pub before_side : Change → Identity
before_side doc = record {
  product = doc.product;
  batch_no = doc.batch_no;
  stock_type = doc.from_stock_type;
  owner = doc.owner;
}

-- `ATTRIBUTES`: all of `OWNER_KEYS` but the consolidation group.
unfoldable pub changed_owner : OwnerKeys Name → OwnerKeys Name → OwnerKeys Name
changed_owner to o = record {
  stock_owner = or_name to.stock_owner o.stock_owner;
  entitled_party = or_name to.entitled_party o.entitled_party;
  country_of_origin = or_name to.country_of_origin o.country_of_origin;
  special_stock_type = or_name to.special_stock_type o.special_stock_type;
  special_stock_ref = or_name to.special_stock_ref o.special_stock_ref;
  consolidation_group = o.consolidation_group;
}

-- A batch belongs to its product.
unfoldable pub after_side : Change → Identity
after_side doc = record {
  product = or_name doc.to_product doc.product;
  batch_no =
      if is_set doc.to_product then doc.to_batch_no else or_name doc.to_batch_no doc.batch_no;
  stock_type = or_name doc.to_stock_type doc.from_stock_type;
  owner = changed_owner doc.to_owner doc.owner;
}

abbrev pub owner_eq : OwnerKeys Name → OwnerKeys Name → Bool
owner_eq a b =
    (a.stock_owner == b.stock_owner)
    && (a.entitled_party == b.entitled_party)
    && (a.country_of_origin == b.country_of_origin)
    && (a.special_stock_type == b.special_stock_type)
    && (a.special_stock_ref == b.special_stock_ref)
    && (a.consolidation_group == b.consolidation_group)

unfoldable pub identity_eq : Identity → Identity → Bool
identity_eq a b =
    (a.product == b.product)
    && (a.batch_no == b.batch_no)
    && (a.stock_type == b.stock_type)
    && owner_eq a.owner b.owner

-- Where the stock of one side lies.
unfoldable pub place_of : Change → Identity → Place
place_of doc side = record {
  warehouse = doc.warehouse;
  product = side.product;
  batch_no = side.batch_no;
  serial_no = doc.serial_no;
  handling_unit = doc.handling_unit;
  storage_bin = doc.storage_bin;
  stock_type = side.stock_type;
}

unfoldable pub source_of : Session → Change → Identity → Source
source_of s doc side = record {
  place = place_of doc side;
  owner = map_keys some side.owner;
  stock_uom = or_name (s.uom_of_product side.product) doc.stock_uom;
}

unfoldable pub destination_of : Session → Change → Identity → Destination
destination_of s doc side = record {
  handling_unit = doc.handling_unit;
  storage_bin = doc.storage_bin;
  stock_type = side.stock_type;
  product = some side.product;
  batch_no = some side.batch_no;
  warehouse = none;
  serial_no = none;
  stock_uom = some (or_name (s.uom_of_product side.product) doc.stock_uom);
  owner = map_keys some side.owner;
  first_receipt_date = none;
  shelf_life_expiry_date = none;
}

-- The texts "PSC" and "PSC-REV", the document type and the movement type.
abbrev pub psc : ℕ
psc = 70

abbrev pub psc_rev : ℕ
psc_rev = 71

abbrev pub change_doctype : Name
change_doctype = 72

abbrev pub change_movement : Name
change_movement = 501

unfoldable pub change_reference : Change → ℕ → Reference
change_reference doc kind = record {
  reference_doctype = change_doctype;
  reference_name = doc.name;
  idempotency_key = kind ∷ doc.name ∷ [];
  warehouse_task = 0;
  device = 0;
}

abbrev pub posting_result : {A : Type 0} → Result Error A → Result ChangeError A
posting_result (err e) = err (posting e)
posting_result (ok a) = ok a

unfoldable pub move_between :
    Session → Change → Identity → Identity → ℕ → Db → Result ChangeError Db
move_between s doc one two kind db = do
  (created, db') ← posting_result (
      transfer_stock s.env (source_of s doc one) (destination_of s doc two) doc.quantity
        change_movement (change_reference doc kind) db)
  ok db'

-- `_move`
unfoldable pub move_change : Session → Change → Bool → ℕ → Db → Result ChangeError Db
move_change s doc true kind db = move_between s doc (before_side doc) (after_side doc) kind db
move_change s doc false kind db = move_between s doc (after_side doc) (before_side doc) kind db
