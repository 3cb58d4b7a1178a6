-- ===== src/Numbering.antt =====
-- frappe_wms/services/numbering.py: number ranges, the most specific match first, and the next number
-- of a range.
pub mod Laws
use frappe_ewm.Base.{
  Bool, List, Name, Option, Result, [], err, find, if◌then◌else◌, is_set, ltb, none, ok, option_or,
  some, suc, zero, ℕ, ◌&&◌, ◌++◌, ◌+◌, ◌-◌, ◌==◌, ◌∷◌,
}

-- A row of `WMS Number Range`.
pub record NumberRange : Type 0 where
  pub name : Name
  pub range_for : Name
  pub active : Bool
  pub warehouse : Name
  pub hu_type : Name
  pub prefix : Name
  pub number_length : ℕ
  pub start_number : ℕ
  pub end_number : ℕ
  pub current_number : ℕ

-- A row of `WMS HU Number Pool`, in the order of creation.
pub record PooledNumber : Type 0 where
  pub number_range : Name
  pub hu_number : Name

pub record Db : Type 0 where
  pub ranges : List NumberRange
  pub pool : List PooledNumber

pub data NumberingError : Type 0 where
  no_range exhausted : NumberingError

-- `_candidate_filters`: the warehouse and the HU type that a range must carry, blank or named.
unfoldable pub candidate_filters : Name → Name → List (Name × Name)
candidate_filters warehouse hu_type =
    (if is_set warehouse && is_set hu_type then (warehouse, hu_type) ∷ [] else [])
    ++ ((if is_set hu_type then (0, hu_type) ∷ [] else [])
        ++ ((if is_set warehouse then (warehouse, 0) ∷ [] else []) ++ (0, 0) ∷ []))

abbrev pub range_matches : Name → Name × Name → NumberRange → Bool
range_matches range_for (warehouse, hu_type) r =
    (r.range_for == range_for)
    && (r.active && ((r.warehouse == warehouse) && (r.hu_type == hu_type)))

-- `frappe.db.get_value` returns the first row of the filter.
unfoldable pub first_match : Name → List (Name × Name) → List NumberRange → Option NumberRange
first_match range_for [] ranges = none
first_match range_for (combo ∷ combos) ranges =
    let later = first_match range_for combos ranges in
    option_or (find (range_matches range_for combo) ranges) later

unfoldable pub find_number_range : Name → Name → Name → List NumberRange → Option NumberRange
find_number_range range_for warehouse hu_type ranges =
    first_match range_for (candidate_filters warehouse hu_type) ranges

unfoldable pub find_range : Name → List NumberRange → Option NumberRange
find_range name [] = none
find_range name (r ∷ rs) = if r.name == name then some r else find_range name rs

unfoldable pub save_range : NumberRange → List NumberRange → List NumberRange
save_range d [] = []
save_range d (r ∷ rs) = if r.name == d.name then d ∷ rs else r ∷ save_range d rs

abbrev behind : PooledNumber → Option (Name × List PooledNumber) → Option (Name × List PooledNumber)
behind p none = none
behind p (some (n, rest)) = some (n, p ∷ rest)

-- The oldest pooled number of a range, and the pool without it.
unfoldable pub take_pooled : Name → List PooledNumber → Option (Name × List PooledNumber)
take_pooled range [] = none
take_pooled range (p ∷ ps) =
    let later = behind p (take_pooled range ps) in
    if p.number_range == range then some (p.hu_number, ps) else later

-- `max(doc.current_number or 0, doc.start_number - 1) + 1`.
unfoldable pub next_value : NumberRange → ℕ
next_value r =
    (if ltb r.current_number (r.start_number - 1) then r.start_number - 1 else r.current_number) + 1

module _ (format : Name → ℕ → ℕ → Name) (exists : Name → Name → Bool) where
  -- The `while` loop from `value` over the `fuel` values that the range has left: the first number
  -- that no document has.
  unfoldable pub first_free : Name → NumberRange → ℕ → ℕ → Option ℕ
  first_free range_for r zero value = none
  first_free range_for r (suc fuel) value =
      let later = first_free range_for r fuel (value + 1) in
      if exists range_for (format r.prefix r.number_length value) then later else some value

  -- `doc.db_set("current_number", next_value)` and the number, or the error.
  unfoldable pub counted : NumberRange → Db → Option ℕ → Result NumberingError (Name × Db)
  counted r db none = err exhausted
  counted r db (some value) = ok (
    format r.prefix r.number_length value,
    record db { ranges = save_range (record r { current_number = value }) db.ranges },
  )

  -- The counting part of `next_number`.
  unfoldable pub count_up : Name → NumberRange → Db → Result NumberingError (Name × Db)
  count_up range_for r db =
      counted r db (first_free range_for r (r.end_number + 1 - next_value r) (next_value r))

  unfoldable pub next_of_range : Name → Name → Db → Result NumberingError (Name × Db)
  next_of_range range_for range_name db = elim (take_pooled range_name db.pool) [
    | some (number, rest) ↦ ok (number, record db { pool = rest })
    | none ↦ elim (find_range range_name db.ranges) [
      | none ↦ err no_range
      | some r ↦ count_up range_for r db
    ]
  ]

  -- `next_number`; the range is given by name, or found.
  unfoldable pub next_number :
      Name → Name → Name → Option Name → Db → Result NumberingError (Name × Db)
  next_number range_for warehouse hu_type (some range_name) db =
      next_of_range range_for range_name db
  next_number range_for warehouse hu_type none db =
      elim (find_number_range range_for warehouse hu_type db.ranges) [
        | none ↦ err no_range
        | some r ↦ next_of_range range_for r.name db
      ]
