-- ===== src/Allocation/Allocate.antt =====
-- `allocate_delivery` of frappe_wms/services/allocation.py.
use frappe_ewm.Base.{
  Bool, List, Option, Result, [], all, any, if◌then◌else◌, is_set, leb_ℤ, length, ltb_ℤ, min_ℤ,
  none, not, ok, pos, some, sorted, throw_if, ℤ, ◌&&◌, ◌++◌, ◌+ℤ◌, ◌-ℤ◌, ◌>>=◌, ◌>>◌, ◌||◌, ◌∷◌,
}
use frappe_ewm.Allocation.Candidates.{candidate_balances}
use frappe_ewm.Allocation.Types.{
  AllocationError, Db, Delivery, DeliveryAllocation, Line, Master, StockAllocation, allocated,
  fully_allocated, not_allocated, not_permitted, not_submitted, partially_allocated,
}
use frappe_ewm.Stock.Rows.{find_balance, save_balance}
use frappe_ewm.Stock.Types.{Balance}

-- The `Stock Allocation` that one round creates.
unfoldable pub new_allocation : Master → Delivery → Line → Balance → ℤ → Db → StockAllocation
new_allocation m d row stock qty db = record {
  name = m.allocation_name (length db.allocations);
  outbound_delivery = d.name;
  outbound_delivery_item = row.name;
  stock_balance = stock.name;
  allocated_quantity = qty;
  picked_quantity = pos 0;
  status = allocated;
}

-- `frappe.db.set_value` on the row that was read: reserve `qty` of it.
unfoldable pub reserve : ℤ → Balance → Balance
reserve qty fresh = record fresh {
  allocated_quantity = fresh.allocated_quantity +ℤ qty;
  available_quantity = fresh.available_quantity -ℤ qty;
}

-- The reservation of what is needed, or of all that the row has available.
unfoldable pub taken : Master → Delivery → Line → ℤ → Balance → Balance → Db → ℤ × Db
taken m d row needed stock fresh db =
    let qty = min_ℤ needed fresh.available_quantity in
    (
      qty,
      record {
        balances = save_balance (reserve qty fresh) db.balances;
        allocations = db.allocations ++ new_allocation m d row stock qty db ∷ [];
      },
    )

-- One candidate, as the locking read finds it: `none` when the row is gone or has nothing available.
unfoldable pub take_row :
    Master → Delivery → Line → ℤ → Balance → Db → Option Balance → Option (ℤ × Db)
take_row m d row needed stock db none = none
take_row m d row needed stock db (some fresh) =
    if leb_ℤ fresh.available_quantity (pos 0)
    then none
    else some (taken m d row needed stock fresh db)

unfoldable pub take_from : Master → Delivery → Line → ℤ → Balance → Db → Option (ℤ × Db)
take_from m d row needed stock db =
    take_row m d row needed stock db (find_balance stock.name db.balances)

-- What is still needed and the tables, after a candidate that was taken from or skipped.
abbrev after_take : ℤ → Db → Option (ℤ × Db) → ℤ × Db
after_take needed db none = (needed, db)
after_take needed db (some (qty, db')) = (needed -ℤ qty, db')

-- The loop over the candidates of one line; it returns what is still needed.
unfoldable pub take_all : Master → Delivery → Line → ℤ → List Balance → Db → ℤ × Db
take_all m d row needed [] db = (needed, db)
take_all m d row needed (stock ∷ rest) db =
    let (needed', db') = after_take needed db (take_from m d row needed stock db) in
    let later = take_all m d row needed' rest db' in
    if leb_ℤ needed (pos 0) then (needed, db) else later

-- The order's own reserved stock first.
abbrev pub special_first : Balance → Balance → Bool
special_first a b = is_set a.owner.special_stock_ref && not (is_set b.owner.special_stock_ref)

-- The loop of a line over its candidates, and `row.db_set`.
unfoldable pub line_after : Master → Delivery → Line → Db → List Balance → Line × Db
line_after m d row db candidates =
    let out =
      take_all m d row (row.requested_quantity -ℤ row.allocated_quantity)
        (sorted special_first candidates) db in
    (record row { allocated_quantity = row.requested_quantity -ℤ out.0 }, out.1)

unfoldable pub allocate_line : Master → Delivery → Line → Db → Result AllocationError (Line × Db)
allocate_line m d row db = do
  candidates ← candidate_balances m d row db.balances
  ok (line_after m d row db candidates)

unfoldable pub allocate_lines :
    Master → Delivery → List Line → Db → Result AllocationError (List Line × Db)
allocate_lines m d [] db = ok ([], db)
allocate_lines m d (row ∷ rows) db = do
  (row', db1) ← allocate_line m d row db
  (rows', db2) ← allocate_lines m d rows db1
  ok (row' ∷ rows', db2)

unfoldable pub allocation_status_of : List Line → DeliveryAllocation
allocation_status_of items =
    if all (λ x. leb_ℤ x.requested_quantity x.allocated_quantity) items
    then fully_allocated
    else if any (λ x. ltb_ℤ (pos 0) x.allocated_quantity) items
    then partially_allocated
    else not_allocated

unfoldable pub allocate_delivery : Master → Delivery → Db → Result AllocationError (Delivery × Db)
allocate_delivery m d db = do
  throw_if (not m.has_role || not (m.may_write d.name)) not_permitted
  throw_if (not d.submitted) not_submitted
  (items, db') ← allocate_lines m d d.items db
  ok (record d { items = items; allocation_status = allocation_status_of items }, db')
