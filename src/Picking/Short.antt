-- ===== src/Picking/Short.antt =====
-- `_release_short_pick_reservation` of frappe_wms/services/task.py: what a task that closes short will
-- never confirm is given back.
use frappe_ewm.Base.{
  List, Name, Result, [], all, any, if◌then◌else◌, is_empty, is_set, leb_ℤ, ltb_ℤ, min_ℤ, not, ok,
  pos, take, ℤ, ◌&&◌, ◌-ℤ◌, ◌>>=◌, ◌||◌, ◌∷◌,
}
use frappe_ewm.Allocation.Types.{DeliveryAllocation, StockAllocation, picked}
use frappe_ewm.Picking.{
  Db, PickDelivery, PickError, PickLine, PickTask, find_allocation, lines_of, or_missing,
  outstanding, save_allocation, update_delivery, update_line, update_picking_status,
}
use frappe_ewm.Stock.Balance.{release_allocation}
use frappe_ewm.Stock.Types.{Env}

-- `Stock Allocation` with `take` less allocated.
unfoldable pub shrink : ℤ → StockAllocation → StockAllocation
shrink take a =
    let now = a.allocated_quantity -ℤ take in
    record a {
      allocated_quantity = now;
      status = if leb_ℤ now a.picked_quantity then picked else a.status;
    }

abbrev shrink_line : ℤ → PickLine → PickLine
shrink_line take l = record l {
  requested_quantity = l.requested_quantity -ℤ take;
  allocated_quantity = l.allocated_quantity -ℤ take;
}

-- One round of the loop on an allocation with an outstanding quantity.
unfoldable pub shrink_one : ℤ → StockAllocation → Db → Db
shrink_one take a db = record db {
  allocations = save_allocation (shrink take a) db.allocations;
  lines =
      if is_set a.outbound_delivery_item
      then update_line (shrink_line take) a.outbound_delivery_item db.lines
      else db.lines;
}

-- The loop over the task's allocations: what is left of the shortfall, the deliveries touched, and the
-- tables.
unfoldable pub shrink_rows : ℤ → List Name → List Name → Db → Result PickError (ℤ × List Name × Db)
shrink_rows remaining touched [] db = ok (remaining, touched, db)
shrink_rows remaining touched (n ∷ rows) db =
    let round = or_missing (find_allocation n db.allocations) >>= λ a.
    let take = min_ℤ remaining (outstanding a) in
    let skip = leb_ℤ (outstanding a) (pos 0) in
    shrink_rows (if skip then remaining else remaining -ℤ take)
      (if not skip && is_set a.outbound_delivery then a.outbound_delivery ∷ touched else touched)
      rows (if skip then db else shrink_one take a db) in
    if leb_ℤ remaining (pos 0) then ok (remaining, touched, db) else round

-- The allocation status of a delivery by its lines.
unfoldable pub allocated_status : List PickLine → DeliveryAllocation
allocated_status rows =
    if all (λ (r : PickLine). leb_ℤ r.requested_quantity r.allocated_quantity) rows
    then DeliveryAllocation.fully_allocated
    else if any (λ (r : PickLine). ltb_ℤ (pos 0) r.allocated_quantity) rows
    then DeliveryAllocation.partially_allocated
    else DeliveryAllocation.not_allocated

abbrev set_allocated : List PickLine → PickDelivery → PickDelivery
set_allocated rows d =
    if is_empty rows then d else record d { allocation_status = allocated_status rows }

-- The loop over the deliveries touched.
unfoldable pub settle_short : List Name → Db → Db
settle_short [] db = db
settle_short (n ∷ ns) db =
    let db' = update_picking_status n db in
    settle_short ns (record db' {
      deliveries = update_delivery (set_allocated (lines_of n db'.lines)) n db'.deliveries;
    })

-- `_release_short_pick_reservation`
unfoldable pub release_short_pick : Env → PickTask → ℤ → Db → Result PickError Db
release_short_pick env task shortfall db =
    if leb_ℤ shortfall (pos 0) || is_empty task.stock_allocations
    then ok db
    else shrink_rows shortfall [] task.stock_allocations
        (record db { stock = release_allocation env task.place task.owner shortfall db.stock })
      >>= λ out. ok (settle_short out.1 out.2)
