-- ===== src/Tests/Wave.antt =====
-- The waves of frappe_wms/services/wave.py, at concrete inputs.
use frappe_ewm.Base.{
  Name, [], contains, false, is_empty, map, refl, some, true, ◌&&◌, ◌+◌, ◌||◌, ◌∷◌, ◌≡◌,
}
use frappe_ewm.Wave.Generate.{already_waved, chunks, is_swept, matches, new_waves, sweep}
use frappe_ewm.Wave.Parts.{split_wave-parts}
use frappe_ewm.Wave.Plan.{is_choice, is_inside, is_locked, split_off, split_wave}
use frappe_ewm.Wave.Types.{Delivery, Session, Template, Wave, draft}

abbrev hourly : Template
hourly = record {
  name = 8;
  active = true;
  warehouse = 1;
  route = 0;
  priority = 2;
  picking_strategy = 4;
  maximum_deliveries = 2;
  minimum_deliveries = 1;
  auto_release = true;
  cutoff = some 600;
  lock_minutes = 30;
}

abbrev open_delivery : Name → Delivery
open_delivery n = record {
  name = n;
  warehouse = 1;
  docstatus = 1;
  is_open = true;
  route = 0;
  delivery_date = 20;
}

abbrev planner : Session
planner = record {
  has_role = true;
  now = 400;
  today = 20;
  templates = hourly ∷ [];
  deliveries = open_delivery 101 ∷ open_delivery 102 ∷ open_delivery 103 ∷ [];
  wave_name = λ n. n + 900;
  is_free = λ n. true;
}

swept : map (λ w. w.deliveries) (sweep planner hourly []) ≡ (101 ∷ 102 ∷ []) ∷ (103 ∷ []) ∷ []
unfolding sweep new_waves chunks matches is_swept already_waved
swept = refl

abbrev morning : Wave
morning = record {
  name = 900;
  warehouse = 1;
  route = 0;
  priority = 2;
  picking_strategy = 4;
  ship_date = 20;
  wave_template = 8;
  status = draft;
  deliveries = 101 ∷ 102 ∷ 103 ∷ [];
}

abbrev divided : Wave × Wave
divided = (split_off planner morning (102 ∷ []) 1, record morning { deliveries = 101 ∷ 103 ∷ [] })

split_wave-parts_example :
    ((d : Name)
      → (contains d morning.deliveries
          ≡ contains d divided.0.deliveries || contains d divided.1.deliveries)
        × (contains d divided.0.deliveries && contains d divided.1.deliveries ≡ false))
    × (is_empty divided.0.deliveries ≡ false)
    × (is_empty divided.1.deliveries ≡ false)
unfolding split_wave split_off is_choice is_inside is_locked
split_wave-parts_example = split_wave-parts planner morning (102 ∷ []) 1 {out = divided} refl
