-- ===== src/Stock/Transfer.antt =====
-- `transfer_stock` of frappe_wms/services/stock.py.
use frappe_ewm.Base.{
  List, Name, Option, Result, [], from_option, leb_ℤ, none, option_or, pos, some, throw_if, ℕ, ℤ,
  ◌-ℤ◌, ◌>>=◌, ◌>>◌, ◌∷◌,
}
use frappe_ewm.Stock.Naming.{entry_name}
use frappe_ewm.Stock.Owner.{resolve_owner}
use frappe_ewm.Stock.Posting.{Reference, post_entries}
use frappe_ewm.Stock.Rows.{find_balance}
use frappe_ewm.Stock.Types.{Balance, Db, Entry, Env, Error, OwnerKeys, Place, not_positive}

-- The `source` dict of a transfer.
pub record Source : Type 0 where
  pub place : Place
  pub owner : OwnerKeys (Option Name)
  pub stock_uom : Name

-- The `destination` dict: `handling_unit`, `storage_bin` and `stock_type`, and what it may override.
pub record Destination : Type 0 where
  pub handling_unit : Name
  pub storage_bin : Name
  pub stock_type : Name
  pub product : Option Name
  pub batch_no : Option Name
  pub warehouse : Option Name
  pub serial_no : Option Name
  pub stock_uom : Option Name
  pub owner : OwnerKeys (Option Name)
  pub first_receipt_date : Option ℕ
  pub shelf_life_expiry_date : Option ℕ

unfoldable pub transfer_out : Source → ℤ → Name → Entry
transfer_out s quantity movement_type = record {
  place = s.place;
  owner = s.owner;
  quantity = pos 0 -ℤ quantity;
  stock_uom = s.stock_uom;
  movement_type = movement_type;
  reference_line = 0;
  posting_datetime = none;
  first_receipt_date = none;
  shelf_life_expiry_date = none;
}

abbrev inherit_owner : OwnerKeys (Option Name) → OwnerKeys (Option Name) → OwnerKeys (Option Name)
inherit_owner d s = record {
  stock_owner = option_or d.stock_owner s.stock_owner;
  entitled_party = option_or d.entitled_party s.entitled_party;
  country_of_origin = option_or d.country_of_origin s.country_of_origin;
  special_stock_type = option_or d.special_stock_type s.special_stock_type;
  special_stock_ref = option_or d.special_stock_ref s.special_stock_ref;
  consolidation_group = option_or d.consolidation_group s.consolidation_group;
}

-- The dates of the source row, if there is one.
abbrev carried_receipt : Option Balance → Option ℕ
carried_receipt none = none
carried_receipt (some b) = b.first_receipt_date

abbrev carried_expiry : Option Balance → Option ℕ
carried_expiry none = none
carried_expiry (some b) = b.shelf_life_expiry_date

-- `positive`: the destination over the source's shared fields and owner, with the carried dates.
unfoldable pub transfer_in : Source → Destination → Entry → ℤ → Name → Option Balance → Entry
transfer_in s d probe quantity movement_type carried = record {
  place = record {
    warehouse = from_option s.place.warehouse d.warehouse;
    product = from_option s.place.product d.product;
    batch_no = from_option s.place.batch_no d.batch_no;
    serial_no = from_option s.place.serial_no d.serial_no;
    handling_unit = d.handling_unit;
    storage_bin = d.storage_bin;
    stock_type = d.stock_type;
  };
  owner = inherit_owner d.owner probe.owner;
  quantity = quantity;
  stock_uom = from_option s.stock_uom d.stock_uom;
  movement_type = movement_type;
  reference_line = 0;
  posting_datetime = none;
  first_receipt_date = option_or d.first_receipt_date (carried_receipt carried);
  shelf_life_expiry_date = option_or d.shelf_life_expiry_date (carried_expiry carried);
}

unfoldable pub transfer_stock :
    Env → Source → Destination → ℤ → Name → Reference → Db → Result Error (List Name × Db)
transfer_stock env s d quantity movement_type ref db = do
  throw_if (leb_ℤ quantity (pos 0)) not_positive
  (probe, db') ← resolve_owner (transfer_out s quantity movement_type) db
  let carried = find_balance (entry_name env probe) db'.balances
  post_entries env (probe ∷ transfer_in s d probe quantity movement_type carried ∷ []) ref db'
