-- ===== src/Tests/WarehouseOrder.antt =====
-- The sequence of frappe_wms/services/warehouse_order.py, at concrete inputs.
use frappe_ewm.Base.{All, List, [], arith, false, none, refl, some, true, ◌↔◌, ◌∷◌, ◌≡◌}
use frappe_ewm.WarehouseOrder.{
  Order, Task, confirmed, is_done, on_hold, order_in_process, release_next_in_sequence,
  sync_warehouse_order,
}
use frappe_ewm.WarehouseOrder.Sequence.{IsSequenced, release_next-IsSequenced}
use frappe_ewm.WarehouseOrder.Status.{is_completed, sync_warehouse_order-completed}

abbrev first_done : Task
first_done = record {
  name = 51;
  status = confirmed;
  sequence = some 1;
  doc_cancelled = false;
  blocking_reason = none;
}

abbrev waiting : Task
waiting = record first_done { name = 52; status = on_hold; sequence = some 2 }

abbrev tasks : List Task
tasks = first_done ∷ waiting ∷ record waiting { name = 53; sequence = some 3 } ∷ []

abbrev order : Order
order = record {
  status = order_in_process;
  assigned_resource = 0;
  blocking_reason = none;
  confirmed_count = 1;
  started_at = some 90;
  completed_at = none;
}

release_next-IsSequenced_example : IsSequenced (release_next_in_sequence order tasks).1
release_next-IsSequenced_example =
    release_next-IsSequenced order tasks ((λ w. cc w), ((λ w. cc w), ((λ w. cc w), tt)))

sync_warehouse_order-completed_example :
    (is_completed (sync_warehouse_order 100 5 order (first_done ∷ [])).status ≡ true)
    ↔ All (λ t. is_done t ≡ true) (first_done ∷ [])
sync_warehouse_order-completed_example =
    sync_warehouse_order-completed 100 5 order (first_done ∷ []) (omega arith) refl refl
