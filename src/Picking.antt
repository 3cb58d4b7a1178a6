-- ===== src/Picking.antt =====
-- The part of frappe_wms/services/task.py that a confirmed, reversed or short pick runs on the stock
-- allocations and the delivery that it picks for.
pub mod Picked
pub mod Short
pub mod Shrunk
use frappe_ewm.Base.{
  List, Name, Option, Result, [], all, any, err, if◌then◌else◌, is_empty, is_set, keep, leb_ℤ,
  ltb_ℤ, max_ℤ, min_ℤ, none, not, ok, pos, some, take, ℤ, ◌&&◌, ◌+ℤ◌, ◌-ℤ◌, ◌==◌, ◌>>=◌, ◌||◌, ◌∷◌,
}
use frappe_ewm.Allocation.Types.{
  DeliveryAllocation, StockAllocation, allocated, partially_picked, picked,
}
use frappe_ewm.Stock.Balance.{release_allocation}
use frappe_ewm.Stock.Types.{Db as StockDb, Env, OwnerKeys, Place}

-- The picking fields of an `Outbound Delivery Item`.
pub record PickLine : Type 0 where
  pub name : Name
  pub delivery : Name
  pub requested_quantity : ℤ
  pub allocated_quantity : ℤ
  pub picked_quantity : ℤ

pub data PickingStatus : Type 0 where
  not_started partly fully not_relevant : PickingStatus

-- The header statuses that picking sets; `other_status` stands for every other one.
pub data HeaderStatus : Type 0 where
  status_allocated status_picking status_picked other_status : HeaderStatus

pub record PickDelivery : Type 0 where
  pub name : Name
  pub status : HeaderStatus
  pub picking_status : PickingStatus
  pub allocation_status : DeliveryAllocation

-- A `Cross Dock` warehouse request for a delivery line that is not cancelled.
pub record CrossDock : Type 0 where
  pub delivery : Name
  pub line : Name
  pub requested_quantity : ℤ

pub record Db : Type 0 where
  pub stock : StockDb
  pub allocations : List StockAllocation
  pub lines : List PickLine
  pub deliveries : List PickDelivery
  pub cross_docks : List CrossDock

-- The fields of a `Warehouse Task` that name the stock it picks, and its allocations.
pub record PickTask : Type 0 where
  pub place : Place
  pub owner : OwnerKeys Name
  pub stock_allocations : List Name

pub data PickError : Type 0 where
  allocation_missing : PickError

unfoldable pub find_allocation : Name → List StockAllocation → Option StockAllocation
find_allocation n [] = none
find_allocation n (a ∷ rows) = if a.name == n then some a else find_allocation n rows

unfoldable pub save_allocation : StockAllocation → List StockAllocation → List StockAllocation
save_allocation d [] = []
save_allocation d (a ∷ rows) = if a.name == d.name then d ∷ rows else a ∷ save_allocation d rows

-- `update ... set ... where name=%s`
unfoldable pub update_line : (PickLine → PickLine) → Name → List PickLine → List PickLine
update_line f n [] = []
update_line f n (l ∷ ls) = if l.name == n then f l ∷ ls else l ∷ update_line f n ls

unfoldable pub update_delivery :
    (PickDelivery → PickDelivery) → Name → List PickDelivery → List PickDelivery
update_delivery f n [] = []
update_delivery f n (d ∷ ds) = if d.name == n then f d ∷ ds else d ∷ update_delivery f n ds

unfoldable pub lines_of : Name → List PickLine → List PickLine
lines_of delivery = keep λ l. l.delivery == delivery

-- The quantity that cross-dock requests reserve for a line.
unfoldable pub cross_dock_quantity : Name → Name → List CrossDock → ℤ
cross_dock_quantity delivery line [] = pos 0
cross_dock_quantity delivery line (c ∷ cs) =
    let rest = cross_dock_quantity delivery line cs in
    if (c.delivery == delivery) && (c.line == line) then c.requested_quantity +ℤ rest else rest

-- The status that `_update_delivery_picking_status` finds for the lines of a delivery.
unfoldable pub picking_status_of : Name → List PickLine → List CrossDock → PickingStatus
picking_status_of delivery rows docks =
    if all (λ (r : PickLine). leb_ℤ r.requested_quantity r.picked_quantity) rows
    then fully
    else if any (λ (r : PickLine). ltb_ℤ (pos 0) r.picked_quantity) rows
    then partly
    else if any (λ (c : CrossDock). c.delivery == delivery) docks
        && all
            (λ (r : PickLine).
              leb_ℤ (r.requested_quantity -ℤ r.picked_quantity)
                (cross_dock_quantity delivery r.name docks +ℤ pos 1))
            rows
    then not_relevant
    else not_started

abbrev set_picking : PickingStatus → PickDelivery → PickDelivery
set_picking fully d = record d { picking_status = fully; status = status_picked }
set_picking s d = record d { picking_status = s }

-- `_update_delivery_picking_status`
unfoldable pub update_picking_status : Name → Db → Db
update_picking_status delivery db =
    let rows = lines_of delivery db.lines in
    if not (is_set delivery) || is_empty rows then db else record db {
      deliveries =
          update_delivery (set_picking (picking_status_of delivery rows db.cross_docks)) delivery
            db.deliveries;
    }

-- `Stock Allocation` with `take` more picked.
unfoldable pub pick_more : ℤ → StockAllocation → StockAllocation
pick_more take a =
    let now = a.picked_quantity +ℤ take in
    record a {
      picked_quantity = now;
      status = if leb_ℤ a.allocated_quantity now then picked else partially_picked;
    }

-- What one allocation takes: its outstanding quantity at most.
abbrev pub outstanding : StockAllocation → ℤ
outstanding a = a.allocated_quantity -ℤ a.picked_quantity

abbrev add_picked : ℤ → PickLine → PickLine
add_picked take l = record l { picked_quantity = l.picked_quantity +ℤ take }

-- One round of the loop of `_update_allocations` on an allocation with an outstanding quantity.
unfoldable pub pick_one : ℤ → StockAllocation → Db → Db
pick_one take a db = update_picking_status a.outbound_delivery (record db {
  allocations = save_allocation (pick_more take a) db.allocations;
  lines =
      if is_set a.outbound_delivery_item
      then update_line (add_picked take) a.outbound_delivery_item db.lines
      else db.lines;
})

abbrev pub or_missing : Option StockAllocation → Result PickError StockAllocation
or_missing none = err allocation_missing
or_missing (some a) = ok a

-- The loop of `_update_allocations`; it returns what is left of the quantity.
unfoldable pub pick_rows : ℤ → List Name → Db → Result PickError (ℤ × Db)
pick_rows remaining [] db = ok (remaining, db)
pick_rows remaining (n ∷ rows) db =
    let round = or_missing (find_allocation n db.allocations) >>= λ a.
    let take = min_ℤ remaining (outstanding a) in
    let left = if leb_ℤ (outstanding a) (pos 0) then remaining else remaining -ℤ take in
    let next = if leb_ℤ (outstanding a) (pos 0) then db else pick_one take a db in
    pick_rows left rows next in
    if leb_ℤ remaining (pos 0) then ok (remaining, db) else round

-- `_update_allocations`
unfoldable pub update_allocations : Env → PickTask → ℤ → Db → Result PickError (ℤ × Db)
update_allocations env task qty db =
    if is_empty task.stock_allocations
    then ok (qty, db)
    else pick_rows qty task.stock_allocations
        (record db { stock = release_allocation env task.place task.owner qty db.stock })

-- `Stock Allocation` with `take` picked back.
unfoldable pub pick_less : ℤ → StockAllocation → StockAllocation
pick_less take a =
    let now = a.picked_quantity -ℤ take in
    record a {
      picked_quantity = now;
      status =
          if ltb_ℤ (pos 0) now && leb_ℤ a.allocated_quantity now
          then picked
          else if ltb_ℤ (pos 0) now
          then partially_picked
          else allocated;
    }

-- `greatest(picked_quantity-%s, 0)`
abbrev sub_picked : ℤ → PickLine → PickLine
sub_picked take l = record l { picked_quantity = max_ℤ (l.picked_quantity -ℤ take) (pos 0) }

unfoldable pub unpick_one : ℤ → StockAllocation → Db → Db
unpick_one take a db = record db {
  allocations = save_allocation (pick_less take a) db.allocations;
  lines =
      if is_set a.outbound_delivery_item
      then update_line (sub_picked take) a.outbound_delivery_item db.lines
      else db.lines;
}

-- The loop of `_unwind_pick_task_allocations`: what is left, the tables, and the deliveries touched.
unfoldable pub unpick_rows : ℤ → List Name → List Name → Db → Result PickError (List Name × Db)
unpick_rows remaining touched [] db = ok (touched, db)
unpick_rows remaining touched (n ∷ rows) db =
    let round = or_missing (find_allocation n db.allocations) >>= λ a.
    let take = min_ℤ remaining a.picked_quantity in
    let skip = leb_ℤ take (pos 0) in
    unpick_rows (if skip then remaining else remaining -ℤ take)
      (if not skip && is_set a.outbound_delivery then a.outbound_delivery ∷ touched else touched)
      rows (if skip then db else unpick_one take a db) in
    if leb_ℤ remaining (pos 0) then ok (touched, db) else round

-- A delivery that read "Picked" and no longer is goes back.
abbrev step_back : PickDelivery → PickDelivery
step_back d = elim d.status [
  | status_picked ↦ elim d.picking_status [
    | fully ↦ d
    | not_started ↦ record d { status = status_allocated }
    | partly ↦ record d { status = status_picking }
    | not_relevant ↦ record d { status = status_picking }
  ]
  | other ↦ d
]

unfoldable pub settle_deliveries : List Name → Db → Db
settle_deliveries [] db = db
settle_deliveries (n ∷ ns) db =
    let db' = update_picking_status n db in
    settle_deliveries ns (record db' { deliveries = update_delivery step_back n db'.deliveries })

-- `_unwind_pick_task_allocations`
unfoldable pub unwind_pick : PickTask → ℤ → Db → Result PickError Db
unwind_pick task qty db =
    if is_empty task.stock_allocations
    then ok db
    else unpick_rows qty [] task.stock_allocations db >>= λ out. ok (settle_deliveries out.0 out.1)
