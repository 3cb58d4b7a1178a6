-- ===== src/CrossDock/Demand.antt =====
-- Open demand for incoming goods and its reservation, in frappe_wms/services/cross_dock.py.
use frappe_ewm.Base.{
  Bool, List, [], all, any, if◌then◌else◌, is_set, keep, leb, ltb, map, not, sorted, ℕ, ◌&&◌, ◌++◌,
  ◌+◌, ◌-◌, ◌==◌, ◌||◌, ◌∷◌,
}
use frappe_ewm.CrossDock.Types.{
  AllocationStatus, DemandLine, Match, Session, Supply, World, fully_allocated, not_allocated,
  partially_allocated,
}

unfoldable pub is_demand : Session → Supply → DemandLine → Bool
is_demand s want l =
    let horizon = s.cross_dock_horizon_days want.warehouse in
    (l.warehouse == want.warehouse)
    && (l.docstatus == 1)
    && (l.item == want.item)
    && (l.required_stock_type == want.stock_type)
    && ltb l.allocated_quantity l.requested_quantity
    && is_set l.staging_bin
    && (l.stock_owner == want.owner)
    && (l.entitled_party == want.party)
    && not (is_set l.required_country_of_origin)
    && ((horizon == 0) || leb l.delivery_date (s.today + horizon))

-- `order by d.delivery_date asc, d.creation asc`
abbrev pub sooner : DemandLine → DemandLine → Bool
sooner a b =
    ltb a.delivery_date b.delivery_date
    || ((a.delivery_date == b.delivery_date) && ltb a.creation b.creation)

abbrev pub outstanding : DemandLine → ℕ
outstanding l = l.requested_quantity - l.allocated_quantity

abbrev pub lesser : ℕ → ℕ → ℕ
lesser a b = if ltb b a then b else a

-- The loop: each line takes what it lacks, as long as something remains.
unfoldable pub match_rows : ℕ → List DemandLine → List Match
match_rows remaining [] = []
match_rows remaining (l ∷ ls) =
    let taken = lesser remaining (outstanding l) in
    let later = match_rows (remaining - taken) ls in
    let skipped = match_rows remaining ls in
    if remaining == 0
    then []
    else if taken == 0
    then skipped
    else record {
      delivery = l.delivery;
      delivery_item = l.name;
      staging_bin = l.staging_bin;
      quantity = taken;
    }
      ∷ later

unfoldable pub demand_rows : Session → Supply → List DemandLine → List DemandLine
demand_rows s want lines = sorted sooner (keep (is_demand s want) lines)

-- `find_cross_dock_demand`
unfoldable pub find_cross_dock_demand : Session → Supply → List DemandLine → List Match
find_cross_dock_demand s want lines =
    if s.opportunistic_cross_docking want.warehouse
    then match_rows want.quantity (demand_rows s want lines)
    else []

unfoldable pub claim : Match → DemandLine → DemandLine
claim m l =
    if l.name == m.delivery_item
    then record l { allocated_quantity = l.allocated_quantity + m.quantity }
    else l

unfoldable pub status_of : List DemandLine → AllocationStatus
status_of rows =
    if all (λ l. leb l.requested_quantity l.allocated_quantity) rows
    then fully_allocated
    else if any (λ l. ltb 0 l.allocated_quantity) rows
    then partially_allocated
    else not_allocated

-- `reserve_cross_dock_demand`
unfoldable pub reserve_cross_dock_demand : Match → World → World
reserve_cross_dock_demand m w =
    let lines = map (claim m) w.lines in
    record w {
      lines = lines;
      allocation_status =
          (m.delivery, status_of (keep (λ l. l.delivery == m.delivery) lines))
          ∷ w.allocation_status;
      recounted = w.recounted ++ m.delivery ∷ [];
    }
