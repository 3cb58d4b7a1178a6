-- ===== src/Numbering/Laws.antt =====
-- The next number of a range (frappe_wms/services/numbering.py) is the first that is free.
use native.Mathlib.Decide.{ℕ_discrete}
use frappe_ewm.Base.{
  Bool, Bool-cases, Name, Option-cases, arith, err, false, inl, inr, none, ok, some, suc, true,
  zero, ℕ, ◌+◌, ◌-◌, ◌<◌, ◌↔◌, ◌≡◌, ◌≤◌,
}
use frappe_ewm.Numbering.{
  Db, NumberRange, count_up, counted, exhausted, first_free, next_value, save_range,
}

module _ (format : Name → ℕ → ℕ → Name) (exists : Name → Name → Bool) where
  -- The loop stops at the first free value, which lies within the values that it looked at.
  first_free-some :
      (range_for : Name) (r : NumberRange) (fuel value : ℕ) {found : ℕ}
      → first_free format exists range_for r fuel value ≡ some found
      → (value ≤ found)
        × (found < value + fuel)
        × (exists range_for (format r.prefix r.number_length found) ≡ false)
        × ((v : ℕ)
            → value ≤ v
            → v < found
            → exists range_for (format r.prefix r.number_length v) ≡ true)
  unfolding first_free
  first_free-some range_for r zero value h = cc
  first_free-some range_for r (suc fuel) value {found} h =
      elim (Bool-cases (exists range_for (format r.prefix r.number_length value))) [
        | inl used ↦
            let (low, high, free, skipped) =
              first_free-some range_for r fuel (value + 1) (rw used at h) in
            (
              omega arith,
              omega arith,
              free,
              λ v p q. elim (ℕ_discrete v value) [
                | yes same ↦ rw same used
                | no other ↦ skipped v (omega arith) q
              ],
            )
        | inr free ↦
            let same : value ≡ found = ground arith in
            (omega arith, omega arith, rw (← same) free, λ v p q. absurd (omega arith))
      ]

  -- It gives up only when every value that it looked at is taken.
  first_free-none :
      (range_for : Name) (r : NumberRange) (fuel value v : ℕ)
      → first_free format exists range_for r fuel value ≡ none
      → value ≤ v
      → v < value + fuel
      → exists range_for (format r.prefix r.number_length v) ≡ true
  unfolding first_free
  first_free-none range_for r zero value v h p q = absurd (omega arith)
  first_free-none range_for r (suc fuel) value v h p q =
      elim (Bool-cases (exists range_for (format r.prefix r.number_length value))) [
        | inl used ↦ elim (ℕ_discrete v value) [
          | yes same ↦ rw same used
          | no other ↦
              first_free-none range_for r fuel (value + 1) v (rw used at h) (omega arith)
                (omega arith)
        ]
        | inr free ↦ cc (rw free at h)
      ]

next_value_bounds :
    (r : NumberRange) → (r.current_number < next_value r) × (r.start_number ≤ next_value r)
unfolding next_value
next_value_bounds r = ground arith

next_value_least :
    (r : NumberRange) (v : ℕ) → r.current_number < v → r.start_number ≤ v → next_value r ≤ v
unfolding next_value
next_value_least r v over from = ground arith

-- A number that a range counts up to is within the range, past the last one given out, belongs to
-- no document, and every lower number that is past the last one given out and not below the start
-- does; the counter is left at it.
pub count_up-first :
    (format : Name → ℕ → ℕ → Name) (exists : Name → Name → Bool) (range_for : Name)
    (r : NumberRange) (db : Db) {out : Name × Db}
    → count_up format exists range_for r db ≡ ok out
    → (value : ℕ) × (out ≡ (
      format r.prefix r.number_length value,
      record db { ranges = save_range (record r { current_number = value }) db.ranges },
    ))
      × (r.current_number < value)
      × (r.start_number ≤ value)
      × (value ≤ r.end_number)
      × (exists range_for out.0 ≡ false)
      × ((v : ℕ)
          → r.current_number < v
          → r.start_number ≤ v
          → v < value
          → exists range_for (format r.prefix r.number_length v) ≡ true)
unfolding counted
count_up-first format exists range_for r db {out} h =
    elim (Option-cases
      (first_free format exists range_for r (r.end_number + 1 - next_value r) (next_value r))) [
        | inl none_left ↦ unfold count_up in cc (rw none_left at h)
        | inr (value, found) ↦
            let (low, high, free, skipped) =
              first_free-some format exists range_for r (r.end_number + 1 - next_value r)
                (next_value r) found in
            let same : counted format exists r db (some value) ≡ ok out =
              unfold count_up in rw found at h in
            let (past, started) = next_value_bounds r in
            (
              value,
              cc same,
              omega arith,
              omega arith,
              omega arith,
              cc (same, free),
              λ v over from below. skipped v (next_value_least r v over from) below,
            )
      ]

-- A range is exhausted exactly when every number that it has left belongs to a document.
count_up-exhausted :
    (format : Name → ℕ → ℕ → Name) (exists : Name → Name → Bool) (range_for : Name)
    (r : NumberRange) (db : Db)
    → (count_up format exists range_for r db ≡ err exhausted) ↔ (
        (v : ℕ)
        → next_value r ≤ v
        → v ≤ r.end_number
        → exists range_for (format r.prefix r.number_length v) ≡ true)
count_up-exhausted format exists range_for r db = (
  λ h v p q.
      first_free-none format exists range_for r (r.end_number + 1 - next_value r) (next_value r) v
        (unfold count_up counted in ground arith) p (omega arith),
  λ used.
      elim (Option-cases
        (first_free format exists range_for r (r.end_number + 1 - next_value r) (next_value r))) [
          | inl none_left ↦ unfold count_up counted in rw none_left
          | inr (value, found) ↦
              let (low, high, free, skipped) =
                first_free-some format exists range_for r (r.end_number + 1 - next_value r)
                  (next_value r) found in
              cc (free, used value low (omega arith))
        ],
)
