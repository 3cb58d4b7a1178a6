-- ===== src/Wave/Generate.antt =====
-- The waves that the templates of frappe_wms/services/wave.py make.
use frappe_ewm.Base.{
  Bool, List, Name, [], any, contains, if◌then◌else◌, is_set, keep, leb, length, map, not, suc,
  take, zero, ℕ, ◌&&◌, ◌++◌, ◌+◌, ◌==◌, ◌||◌, ◌∷◌,
}
use frappe_ewm.Wave.Plan.{is_open_wave}
use frappe_ewm.Wave.Types.{Delivery, Session, Template, Wave, draft}

-- `_already_waved`: the delivery is on a wave that is not over.
unfoldable pub already_waved : List Wave → Name → Bool
already_waved waves d = any (λ w. is_open_wave w.status && contains d w.deliveries) waves

unfoldable pub is_swept : Session → Template → Delivery → Bool
is_swept s t d =
    (d.warehouse == t.warehouse)
    && (d.docstatus == 1)
    && d.is_open
    && leb d.delivery_date s.today
    && (not (is_set t.route) || (d.route == t.route))

-- The deliveries of a template that are on no wave yet.
unfoldable pub matches : Session → Template → List Wave → List Name
matches s t waves =
    keep (λ n. not (already_waved waves n)) (map (λ d. d.name) (keep (is_swept s t) s.deliveries))

abbrev pub drop : ℕ → List Name → List Name
drop zero xs = xs
drop (suc n) [] = []
drop (suc n) (x ∷ xs) = drop n xs

-- `matches[start:start + size]` for each start of the range; `rounds` bounds the loop.
unfoldable pub chunks : ℕ → ℕ → List Name → List (List Name)
chunks zero size xs = []
chunks (suc rounds) size [] = []
chunks (suc rounds) size (x ∷ xs) = take size (x ∷ xs) ∷ chunks rounds size (drop size (x ∷ xs))

unfoldable pub new_waves : Session → Template → ℕ → List (List Name) → List Wave
new_waves s t number [] = []
new_waves s t number (ds ∷ rest) =
    record {
      name = s.wave_name number;
      warehouse = t.warehouse;
      route = t.route;
      priority = t.priority;
      picking_strategy = t.picking_strategy;
      ship_date = 0;
      wave_template = t.name;
      status = draft;
      deliveries = ds;
    }
    ∷ new_waves s t (number + 1) rest

-- `template.maximum_deliveries or len(matches)`
abbrev pub wave_size : Template → List Name → ℕ
wave_size t ms = if t.maximum_deliveries == 0 then length ms else t.maximum_deliveries

unfoldable pub sweep : Session → Template → List Wave → List Wave
sweep s t waves =
    let ms = matches s t waves in
    waves ++ new_waves s t (length waves) (chunks (length ms) (wave_size t ms) ms)

unfoldable pub sweep_all : Session → List Template → List Wave → List Wave
sweep_all s [] waves = waves
sweep_all s (t ∷ ts) waves = sweep_all s ts (sweep s t waves)

-- `generate_waves_from_templates`
unfoldable pub generate_waves_from_templates : Session → List Wave → List Wave
generate_waves_from_templates s waves = sweep_all s (keep (λ t. t.active) s.templates) waves
