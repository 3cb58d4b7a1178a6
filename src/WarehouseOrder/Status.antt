-- ===== src/WarehouseOrder/Status.antt =====
-- The status of a Warehouse Order in frappe_wms/services/warehouse_order.py.
use frappe_ewm.Base.{
  All, Bool, Bool-cases, List, Name, [], arith, false, inl, inr, keep, leb, length, refl, true, ℕ,
  ◌<◌, ◌↔◌, ◌∷◌, ◌≡◌, ◌≤◌,
}
use frappe_ewm.WarehouseOrder.{
  Order, OrderStatus, Task, done_count, is_done, is_paused, order_completed, sync_running,
  sync_warehouse_order,
}

abbrev pub is_completed : OrderStatus → Bool
is_completed order_completed = true
is_completed other = false

length-keep : (p : Task → Bool) (ts : List Task) → length (keep p ts) ≤ length ts
length-keep p [] = ground arith
length-keep p (t ∷ ts) = let rest = length-keep p ts in ground arith

-- Counting the items that pass reaches the length exactly if all of them pass.
length-keep-All :
    (p : Task → Bool) (ts : List Task) → (length ts ≤ length (keep p ts)) ↔ All (λ t. p t ≡ true) ts
length-keep-All p [] = (λ h. tt, λ h. ground arith)
length-keep-All p (t ∷ ts) =
    let rest = length-keep p ts in
    let (all_pass, reach) = length-keep-All p ts in
    elim (Bool-cases (p t)) [
      | inl passes ↦ (
        λ h. let below = rw passes at h in (passes, all_pass (ground arith)),
        λ h. rw passes (let ended = reach h.1 in ground arith),
      )
      | inr fails ↦ (λ h. let below = rw fails at h in ground arith, λ h. cc (h.0, fails))
    ]

sync_running-is_completed :
    (now : ℕ) (default : Name) (o : Order) (ts : List Task)
    → is_completed o.status ≡ false
    → is_completed (sync_running now default o ts).status ≡ false
unfolding sync_running
sync_running-is_completed now default o ts h = ground arith

-- A recompute of an order that has tasks and is neither on hold nor completed yet makes it
-- completed exactly if all its tasks are confirmed or cancelled.
pub sync_warehouse_order-completed :
    (now : ℕ) (default : Name) (o : Order) (ts : List Task)
    → 0 < length ts
    → is_paused o.status ≡ false
    → is_completed o.status ≡ false
    → (is_completed (sync_warehouse_order now default o ts).status ≡ true)
      ↔ All (λ t. is_done t ≡ true) ts
unfolding sync_warehouse_order done_count
sync_warehouse_order-completed now default o [] some_task running open_yet = ground arith
sync_warehouse_order-completed now default o (t ∷ ts) some_task running open_yet =
    let (all_done, reach) = length-keep-All is_done (t ∷ ts) in
    elim (Bool-cases (leb (length (t ∷ ts)) (done_count (t ∷ ts)))) [
      | inl every ↦ (λ _. all_done (ground arith), λ _. rw (running, every) refl)
      | inr some_left ↦ (
        λ h. cc (
          rw (running, some_left) at h,
          sync_running-is_completed now default o (t ∷ ts) open_yet,
        ),
        λ h. let top = reach h in ground arith,
      )
    ]
