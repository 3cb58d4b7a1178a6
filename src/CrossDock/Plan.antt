-- ===== src/CrossDock/Plan.antt =====
-- Planned cross-docking, in frappe_wms/services/cross_dock.py.
use frappe_ewm.Base.{
  Bool, List, Name, Result, [], false, if◌then◌else◌, is_set, keep, leb, length, map, not, ok,
  or_name, throw_if, true, ℕ, ◌&&◌, ◌++◌, ◌+◌, ◌-◌, ◌==◌, ◌>>◌, ◌||◌, ◌∷◌,
}
use frappe_ewm.CrossDock.Demand.{find_cross_dock_demand, lesser, reserve_cross_dock_demand}
use frappe_ewm.CrossDock.Types.{
  CrossDockError, DemandLine, Inbound, InboundItem, Match, PlanRow, PlanStatus, Session, Supply,
  World, cancelled, done, not_open, not_permitted, planned,
}

abbrev pub is_planned : PlanStatus → Bool
is_planned planned = true
is_planned done = false
is_planned cancelled = false

abbrev pub open_plan : PlanRow → ℕ
open_plan p = p.planned_quantity - p.consumed_quantity

abbrev pub is_plan_of : Name → PlanRow → Bool
is_plan_of inbound_item p = (p.inbound_delivery_item == inbound_item) && is_planned p.status

unfoldable pub already_planned : Name → List PlanRow → ℕ
already_planned inbound_item [] = 0
already_planned inbound_item (p ∷ ps) =
    (if is_plan_of inbound_item p then open_plan p else 0) + already_planned inbound_item ps

unfoldable pub plan_row : Session → Name → InboundItem → Match → ℕ → PlanRow
plan_row s parent i m number = record {
  name = s.plan_name number;
  parent = parent;
  inbound_delivery_item = i.name;
  item = i.item;
  outbound_delivery = m.delivery;
  outbound_delivery_item = m.delivery_item;
  staging_bin = m.staging_bin;
  planned_quantity = m.quantity;
  consumed_quantity = 0;
  status = planned;
}

unfoldable pub plan_matches : Session → Name → InboundItem → List Match → World → World
plan_matches s parent i [] w = w
plan_matches s parent i (m ∷ ms) w =
    let reserved = reserve_cross_dock_demand m w in
    plan_matches s parent i ms (record reserved {
      plan = reserved.plan ++ plan_row s parent i m (length reserved.plan) ∷ [];
    })

unfoldable pub supply_of : Session → Inbound → InboundItem → ℕ → Supply
supply_of s doc i open_quantity = record {
  warehouse = doc.warehouse;
  item = i.item;
  stock_type = or_name i.expected_stock_type s.available_type;
  quantity = open_quantity;
  owner = doc.stock_owner;
  party = doc.entitled_party;
}

-- One round of the loop over the rows; `before` is the plan that the document had.
unfoldable pub plan_item :
    Session → Inbound → List PlanRow → InboundItem → World → List Match × World
plan_item s doc before i w =
    let open_quantity = i.expected_quantity - i.received_quantity - already_planned i.name before in
    let ms = find_cross_dock_demand s (supply_of s doc i open_quantity) w.lines in
    if leb open_quantity 1 then ([], w) else (ms, plan_matches s doc.name i ms w)

unfoldable pub plan_items :
    Session → Inbound → List PlanRow → List InboundItem → World → List Match × World
plan_items s doc before [] w = ([], w)
plan_items s doc before (i ∷ rest) w =
    let (ms, w1) = plan_item s doc before i w in
    let (more, w2) = plan_items s doc before rest w1 in (ms ++ more, w2)

-- `plan_cross_dock`
unfoldable pub plan_cross_dock :
    Session → Inbound → World → Result CrossDockError (List Match × World)
plan_cross_dock s doc w = do
  throw_if (not s.has_role) not_permitted
  throw_if (not (doc.docstatus == 1) || doc.closed_short) not_open
  ok (plan_items s doc (keep (λ p. p.parent == doc.name) w.plan) doc.items w)

-- The loop of `planned_matches`.
unfoldable pub match_plan : ℕ → List PlanRow → List (Name × Match)
match_plan left [] = []
match_plan left (p ∷ ps) =
    let taken = lesser left (open_plan p) in
    let later = match_plan (left - taken) ps in
    let skipped = match_plan left ps in
    if taken == 0
    then skipped
    else (
      p.name,
      record {
        delivery = p.outbound_delivery;
        delivery_item = p.outbound_delivery_item;
        staging_bin = p.staging_bin;
        quantity = taken;
      },
    )
      ∷ later

-- `planned_matches`
unfoldable pub planned_matches : Name → ℕ → List PlanRow → List (Name × Match)
planned_matches inbound_item quantity plan =
    match_plan quantity (keep (is_plan_of inbound_item) plan)

unfoldable pub consume_row : ℕ → PlanRow → PlanRow
consume_row quantity p =
    let consumed = p.consumed_quantity + quantity in
    record p {
      consumed_quantity = consumed;
      status = if leb p.planned_quantity (consumed + 1) then done else planned;
    }

-- `consume_plan`
unfoldable pub consume_plan : Name → ℕ → World → World
consume_plan n quantity w = record w {
  plan = map (λ p. if p.name == n then consume_row quantity p else p) w.plan;
}

unfoldable pub is_cancelled_by : Name → Name → PlanRow → Bool
is_cancelled_by inbound outbound p =
    is_planned p.status
    && (not (is_set inbound) || (p.parent == inbound))
    && (not (is_set outbound) || (p.outbound_delivery == outbound))

-- `greatest(allocated_quantity - q, 0)` on the line.
unfoldable pub give_back : PlanRow → DemandLine → DemandLine
give_back p l =
    if l.name == p.outbound_delivery_item
    then record l { allocated_quantity = l.allocated_quantity - open_plan p }
    else l

unfoldable pub give_back_all : List PlanRow → List DemandLine → List DemandLine
give_back_all [] lines = lines
give_back_all (p ∷ ps) lines = give_back_all ps (map (give_back p) lines)

-- `cancel_cross_dock_plan`: an outbound delivery that is gone takes its reservation with it.
unfoldable pub cancel_cross_dock_plan : Name → Name → World → World
cancel_cross_dock_plan inbound outbound w = record w {
  lines =
      if is_set outbound
      then w.lines
      else give_back_all (keep (is_cancelled_by inbound outbound) w.plan) w.lines;
  plan =
      map (λ p. if is_cancelled_by inbound outbound p then record p { status = cancelled } else p)
        w.plan;
}
