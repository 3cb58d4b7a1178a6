-- ===== src/InventoryCount/Snapshot.antt =====
-- How a count of frappe_wms/services/inventory_count.py is started, and the bins that it blocks.
use frappe_ewm.Base.{
  Bool, List, Name, Result, [], any, contains, false, find, if◌then◌else◌, is_empty, is_set, keep,
  ltb_ℤ, map, none, not, ok, pos, some, throw_if, true, ℕ, ◌&&◌, ◌+◌, ◌==◌, ◌>>◌, ◌||◌, ◌∷◌,
}
use frappe_ewm.InventoryCount.Types.{
  Bin, Count, CountError, CountStatus, OpenTask, Row, Session, World, already_started, bin_busy,
  cancelled, counted, counting, draft, not_permitted, nothing_in_scope, pending_approval,
  pending_recount, posted, row_counted, row_open, row_posted,
}
use frappe_ewm.Stock.Types.{Balance}

abbrev pub require_role : Session → Result CountError (Unit {0})
require_role s = throw_if (not s.has_role) not_permitted

abbrev pub is_draft : CountStatus → Bool
is_draft draft = true
is_draft _ = false

-- `status in ("Counting", "Counted")`
abbrev pub is_recording : CountStatus → Bool
is_recording counting = true
is_recording counted = true
is_recording _ = false

abbrev pub is_over : CountStatus → Bool
is_over posted = true
is_over cancelled = true
is_over _ = false

abbrev pub is_open_row : Row → Bool
is_open_row r = elim r.status [
  | row_open ↦ true
  | row_counted ↦ false
  | row_posted ↦ false
  | pending_recount ↦ false
  | pending_approval ↦ false
]

-- `{b for b in names if b}`, in the order of first appearance.
unfoldable pub distinct_names : List Name → List Name
distinct_names [] = []
distinct_names (n ∷ ns) =
    let rest = distinct_names ns in if is_set n && not (contains n rest) then n ∷ rest else rest

abbrev pub is_named : Name → Bin → Bool
is_named n b = b.name == n

-- `frappe.db.get_value("Storage Bin", b, "removal_blocked")`
unfoldable pub is_removal_blocked : Name → List Bin → Bool
is_removal_blocked n bins = elim (find (is_named n) bins) [
  | none ↦ false
  | some b ↦ b.removal_blocked
]

-- `frappe.db.set_value("Storage Bin", {"name": ["in", names]}, "removal_blocked", value)`
unfoldable pub set_blocked : Bool → List Name → List Bin → List Bin
set_blocked value names =
    map λ b. if contains b.name names then record b { removal_blocked = value } else b

-- `_release_blocked_bins`
unfoldable pub release_blocked_bins : Count → World → World
release_blocked_bins doc w = record w { bins = set_blocked false doc.blocked_bins w.bins }

-- The balances that the filters select.
unfoldable pub in_scope : Count → List Bin → Balance → Bool
in_scope doc bins b =
    (b.place.warehouse == doc.warehouse)
    && ltb_ℤ (pos 0) b.quantity
    && (not (is_set doc.storage_bin) || (b.place.storage_bin == doc.storage_bin))
    && (not (is_set doc.product) || (b.place.product == doc.product))
    && (not (is_set doc.storage_type) || any (in_type doc b) bins)
  where
    in_type : Count → Balance → Bin → Bool
    in_type doc b x =
        (x.warehouse == doc.warehouse)
        && (x.storage_type == doc.storage_type)
        && (x.name == b.place.storage_bin)

unfoldable pub snapshot_row : Session → ℕ → Balance → Row
snapshot_row s i b = record {
  name = s.row_name i;
  product = b.place.product;
  batch_no = b.place.batch_no;
  serial_no = b.place.serial_no;
  handling_unit = b.place.handling_unit;
  storage_bin = b.place.storage_bin;
  stock_type = b.place.stock_type;
  stock_uom = b.stock_uom;
  book_quantity = b.quantity;
  counted_quantity = none;
  variance = none;
  status = row_open;
  counted_by = 0;
  recount_count = 0;
  tolerance_group = 0;
}

unfoldable pub snapshot_rows : Session → ℕ → List Balance → List Row
snapshot_rows s i [] = []
snapshot_rows s i (b ∷ bs) = snapshot_row s i b ∷ snapshot_rows s (i + 1) bs

-- A task that is about to take stock from one of the bins, or to bring some.
unfoldable pub is_busy : List Name → OpenTask → Bool
is_busy names t = contains t.source_bin names || contains t.destination_bin names

unfoldable pub touched_bins : List Balance → List Name
touched_bins balances = distinct_names (map (λ b. b.place.storage_bin) balances)

unfoldable pub newly_blocked : List Bin → List Name → List Name
newly_blocked bins names = keep (λ n. not (is_removal_blocked n bins)) names

-- `snapshot_count`
unfoldable pub snapshot_count : Session → Count → World → Result CountError (Count × World)
snapshot_count s doc w = do
  require_role s
  throw_if (not (is_draft doc.status)) already_started
  let balances = keep (in_scope doc w.bins) w.stock.balances
  throw_if (is_empty balances) nothing_in_scope
  let bin_names = touched_bins balances
  throw_if (any (is_busy bin_names) s.open_tasks) bin_busy
  let blocked = newly_blocked w.bins bin_names
  ok (
    record doc {
      items = snapshot_rows s 0 balances;
      blocked_bins = blocked;
      status = counting;
      counted_by = s.user;
    },
    record w { bins = set_blocked true blocked w.bins },
  )
