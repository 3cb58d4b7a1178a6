-- ===== src/Tests/Numbering.antt =====
-- The number ranges of frappe_wms/services/numbering.py, at concrete inputs.
use frappe_ewm.Base.{Bool, Name, [], false, refl, true, ℕ, ◌+◌, ◌<◌, ◌==◌, ◌∷◌, ◌≡◌, ◌≤◌}
use frappe_ewm.Numbering.{Db, NumberRange, count_up, counted, first_free, next_value, save_range}
use frappe_ewm.Numbering.Laws.{count_up-first}

abbrev pallets : NumberRange
pallets = record {
  name = 1;
  range_for = 2;
  active = true;
  warehouse = 0;
  hu_type = 0;
  prefix = 1000;
  number_length = 4;
  start_number = 1;
  end_number = 6;
  current_number = 3;
}

abbrev numbers : Db
numbers = record { ranges = pallets ∷ []; pool = [] }

abbrev numbered : Name → ℕ → ℕ → Name
numbered prefix width value = prefix + value

-- Number 4 is in use.
abbrev used : Name → Name → Bool
used range_for name = name == 1004

abbrev given : Name × Db
given = (1005, record numbers { ranges = record pallets { current_number = 5 } ∷ [] })

count_up-first_example :
    (value : ℕ) × (given ≡ (
      numbered pallets.prefix pallets.number_length value,
      record numbers {
        ranges = save_range (record pallets { current_number = value }) numbers.ranges;
      },
    ))
    × (pallets.current_number < value)
    × (pallets.start_number ≤ value)
    × (value ≤ pallets.end_number)
    × (used 2 given.0 ≡ false)
    × ((v : ℕ)
        → pallets.current_number < v
        → pallets.start_number ≤ v
        → v < value
        → used 2 (numbered pallets.prefix pallets.number_length v) ≡ true)
unfolding count_up counted first_free next_value save_range
count_up-first_example = count_up-first numbered used 2 pallets numbers {out = given} refl
