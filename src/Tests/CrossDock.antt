-- ===== src/Tests/CrossDock.antt =====
-- The demand of frappe_wms/services/cross_dock.py, at concrete inputs.
use frappe_ewm.Base.{List, Name, [], map, refl, sorted, true, ℕ, ◌+◌, ◌∷◌, ◌≡◌}
use frappe_ewm.Allocation.Allocate.{taken}
use frappe_ewm.CrossDock.Demand.{demand_rows, find_cross_dock_demand, is_demand, lesser, match_rows}
use frappe_ewm.CrossDock.Matched.{demanded, find_cross_dock_demand-matched, matched}
use frappe_ewm.CrossDock.Types.{DemandLine, Session, Supply}

abbrev line_of : Name → ℕ → ℕ → ℕ → DemandLine
line_of n day wanted taken = record {
  name = n;
  delivery = n + 100;
  warehouse = 1;
  docstatus = 1;
  item = 2;
  required_stock_type = 4;
  required_country_of_origin = 0;
  stock_owner = 0;
  entitled_party = 0;
  staging_bin = 9;
  delivery_date = day;
  creation = n;
  requested_quantity = wanted;
  allocated_quantity = taken;
}

abbrev demand : List DemandLine
demand = line_of 11 22 5000000 1000000 ∷ line_of 12 21 3000000 0 ∷ line_of 13 60 9000000 0 ∷ []

abbrev incoming : Supply
incoming = record {
  warehouse = 1;
  item = 2;
  stock_type = 4;
  quantity = 6000000;
  owner = 0;
  party = 0;
}

abbrev dock : Session
dock = record {
  has_role = true;
  today = 20;
  opportunistic_cross_docking = λ w. true;
  cross_dock_horizon_days = λ w. 7;
  available_type = 4;
  plan_name = λ n. n + 500;
}

-- The line that is due first takes all it lacks, the next one the rest.
sooner_first :
    map (λ m. m.quantity) (find_cross_dock_demand dock incoming demand) ≡ 3000000 ∷ 3000000 ∷ []
unfolding find_cross_dock_demand match_rows demand_rows sorted is_demand
sooner_first = refl

find_cross_dock_demand-matched_example :
    matched (find_cross_dock_demand dock incoming demand)
    ≡ lesser 6000000 (demanded (demand_rows dock incoming demand))
find_cross_dock_demand-matched_example = find_cross_dock_demand-matched dock incoming demand refl
