-- ===== src/Wave/Plan.antt =====
-- Splitting, merging and releasing waves, in frappe_wms/services/wave.py.
use frappe_ewm.Base.{
  Bool, List, Name, Option, Result, [], all, any, contains, err, false, find, if◌then◌else◌,
  is_empty, is_set, keep, leb, length, ltb, map, none, not, ok, some, throw_if, true, ℕ, ◌&&◌, ◌++◌,
  ◌+◌, ◌==◌, ◌>>◌, ◌∷◌,
}
use frappe_ewm.Wave.Types.{
  Session, Template, Wave, WaveError, WaveStatus, draft, in_use, not_draft, not_permitted,
  other_warehouses, picked, picking, released, too_few, wave_locked, wrong_choice,
}

abbrev pub is_draft : WaveStatus → Bool
is_draft draft = true
is_draft _ = false

-- `OPEN_WAVE_STATUSES`
abbrev pub is_open_wave : WaveStatus → Bool
is_open_wave draft = true
is_open_wave released = true
is_open_wave picking = true
is_open_wave picked = true
is_open_wave _ = false

abbrev pub template_named : Session → Name → Option Template
template_named s n = if is_set n then find (λ t. t.name == n) s.templates else none

abbrev past_lock : ℕ → Template → Option ℕ → Bool
past_lock now t none = false
past_lock now t (some cutoff) = ltb 0 t.lock_minutes && leb cutoff (now + t.lock_minutes)

abbrev locked_by : ℕ → Option Template → Bool
locked_by now none = false
locked_by now (some t) = past_lock now t t.cutoff

-- `_locked`
unfoldable pub is_locked : Session → Wave → Bool
is_locked s w = locked_by s.now (template_named s w.wave_template)

unfoldable pub is_inside : List Name → List Name → Bool
is_inside move have = all (λ n. contains n have) move

-- A choice of some of the deliveries, but not all.
unfoldable pub is_choice : List Name → List Name → Bool
is_choice move have = not (is_empty move) && is_inside move have && not (is_inside have move)

unfoldable pub split_off : Session → Wave → List Name → ℕ → Wave
split_off s w move number = record {
  name = s.wave_name number;
  warehouse = w.warehouse;
  route = w.route;
  priority = w.priority;
  picking_strategy = w.picking_strategy;
  ship_date = w.ship_date;
  wave_template = w.wave_template;
  status = draft;
  deliveries = move;
}

-- `split_wave`: the new wave, and the old one with what is left. `move` is the set of the deliveries
-- asked for, in its order; `number` counts the waves there are.
unfoldable pub split_wave : Session → Wave → List Name → ℕ → Result WaveError (Wave × Wave)
split_wave s w move number = do
  throw_if (not s.has_role) not_permitted
  throw_if (not (is_draft w.status)) not_draft
  throw_if (is_locked s w) wave_locked
  throw_if (not (is_choice move w.deliveries)) wrong_choice
  ok (
    split_off s w move number,
    record w { deliveries = keep (λ n. not (contains n move)) w.deliveries },
  )

-- The deliveries of a wave that are not there yet.
unfoldable pub add_new : List Name → List Name → List Name
add_new have [] = have
add_new have (d ∷ ds) = if contains d have then add_new have ds else add_new (have ++ d ∷ []) ds

unfoldable pub add_waves : List Name → List Wave → List Name
add_waves have [] = have
add_waves have (w ∷ ws) = add_waves (add_new have w.deliveries) ws

-- `merge_waves` on the waves in the order of their names: the first takes the deliveries of the
-- others, which are deleted.
unfoldable pub merge_into : Wave → List Wave → Wave
merge_into target rest = record target {
  deliveries = add_waves target.deliveries rest;
  route = if all (λ w. w.route == target.route) rest then target.route else 0;
}

unfoldable pub merge_waves : Session → List Wave → Result WaveError Wave
merge_waves s [] = throw_if (not s.has_role) not_permitted >> err too_few
merge_waves s (target ∷ rest) = do
  throw_if (not s.has_role) not_permitted
  throw_if (is_empty rest) too_few
  throw_if (any (λ w. not (s.is_free w.name)) (target ∷ rest)) in_use
  throw_if (any (λ w. not (is_draft w.status)) (target ∷ rest)) not_draft
  throw_if (any (λ w. not (w.warehouse == target.warehouse)) rest) other_warehouses
  throw_if (any (is_locked s) (target ∷ rest)) wave_locked
  ok (merge_into target rest)

abbrev past_cutoff : ℕ → Option ℕ → Bool
past_cutoff now none = false
past_cutoff now (some cutoff) = leb cutoff now

abbrev due_by : ℕ → Wave → Option Template → Bool
due_by now w none = false
due_by now w (some t) =
    t.auto_release
    && past_cutoff now t.cutoff
    && not (ltb 0 t.minimum_deliveries && ltb (length w.deliveries) t.minimum_deliveries)

-- A draft wave of a template whose cutoff has passed, with enough deliveries.
unfoldable pub is_due : Session → Wave → Bool
is_due s w =
    is_draft w.status && is_set w.wave_template && due_by s.now w (template_named s w.wave_template)

-- `auto_release_due_waves`: the waves that `release_wave` of services/picking.py is called with.
unfoldable pub auto_release_due_waves : Session → List Wave → List Name
auto_release_due_waves s waves = map (λ w. w.name) (keep (is_due s) waves)
