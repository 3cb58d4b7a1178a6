-- ===== src/Tests/Picking.antt =====
-- The picks of frappe_wms/services/task.py, at concrete inputs.
use frappe_ewm.Base.{All, [], arith, pos, refl, ℤ, ◌+ℤ◌, ◌-ℤ◌, ◌∷◌, ◌≡◌, ◌≤ℤ◌}
use frappe_ewm.Allocation.Types.{DeliveryAllocation, StockAllocation, partially_picked}
use frappe_ewm.Picking.{
  Db, PickTask, cross_dock_quantity, find_allocation, lines_of, partly, pick_more, pick_one,
  pick_rows, picking_status_of, save_allocation, status_picking, update_allocations,
  update_delivery, update_line, update_picking_status,
}
use frappe_ewm.Picking.Picked.{IsPickable, picked_total, update_allocations-picks}
use frappe_ewm.Picking.Short.{
  allocated_status, release_short_pick, settle_short, shrink, shrink_one, shrink_rows,
}
use frappe_ewm.Stock.Balance.{release_allocation}
use frappe_ewm.Stock.Naming.{balance_name, raw_name}
use frappe_ewm.Stock.Rows.{find_balance}
use frappe_ewm.Tests.Data.{env, from_ok, no_owner, no_stock, receiving_bin}

abbrev reservation : StockAllocation
reservation = record {
  name = 41;
  outbound_delivery = 31;
  outbound_delivery_item = 21;
  stock_balance = 11;
  allocated_quantity = pos 3000000;
  picked_quantity = pos 1000000;
  status = partially_picked;
}

abbrev picker : PickTask
picker = record { place = receiving_bin; owner = no_owner; stock_allocations = 41 ∷ [] }

abbrev before : Db
before = record {
  stock = no_stock;
  allocations = reservation ∷ [];
  lines =
      record {
        name = 21;
        delivery = 31;
        requested_quantity = pos 3000000;
        allocated_quantity = pos 3000000;
        picked_quantity = pos 1000000;
      }
      ∷ [];
  deliveries =
      record {
        name = 31;
        status = status_picking;
        picking_status = partly;
        allocation_status = DeliveryAllocation.fully_allocated;
      }
      ∷ [];
  cross_docks = [];
}

abbrev after : ℤ × Db
unfolding update_allocations pick_rows pick_one pick_more find_allocation save_allocation
    update_picking_status lines_of release_allocation find_balance raw_name balance_name update_line
    update_delivery picking_status_of cross_dock_quantity ◌+ℤ◌ ◌-ℤ◌
after = from_ok (pos 0, before) (update_allocations env picker (pos 2500000) before)

update_allocations-picks_example :
    All IsPickable after.1.allocations
    × (picked_total after.1.allocations +ℤ after.0 ≡ picked_total before.allocations +ℤ pos 2500000)
    × (pos 0 ≤ℤ after.0)
unfolding update_allocations pick_rows pick_one pick_more find_allocation save_allocation
    update_picking_status lines_of release_allocation find_balance raw_name balance_name update_line
    update_delivery picking_status_of cross_dock_quantity ◌+ℤ◌ ◌-ℤ◌
update_allocations-picks_example =
    update_allocations-picks env picker (pos 2500000) before (omega arith)
      ((omega arith, omega arith), tt) refl

abbrev shortened : Db
unfolding release_short_pick shrink_rows shrink_one shrink settle_short allocated_status
    find_allocation save_allocation update_picking_status lines_of release_allocation find_balance
    raw_name balance_name update_line update_delivery picking_status_of cross_dock_quantity ◌+ℤ◌
    ◌-ℤ◌
shortened = from_ok before (release_short_pick env picker (pos 500000) before)
