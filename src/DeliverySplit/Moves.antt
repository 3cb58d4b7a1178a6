-- ===== src/DeliverySplit/Moves.antt =====
-- The moves that frappe_wms/services/delivery_split.py collects: one for a line, and none over what
-- may leave the line.
use frappe_ewm.Base.{
  All, Bool-cases, List, Name, Option-cases, [], arith, false, inl, inr, leb_ℤ, ltb_ℤ, ok, pos,
  refl, some, subst, throw_if-eq-ok, ℤ, ◌+ℤ◌, ◌-ℤ◌, ◌==◌, ◌∷◌, ◌≡◌, ◌≢◌, ◌≤ℤ◌, -ℤ_parts,
}
use frappe_ewm.DeliverySplit.{
  Line, add_move, collect_moves, find_line, lower_line, movable_quantity, over_movable, touched,
}

-- Nothing of a line is negative, and no step has touched more than is requested.
abbrev pub IsOpen : Line → Type 0
IsOpen r = (pos 0 ≤ℤ touched r) × (touched r ≤ℤ r.requested_quantity)

abbrev pub requested : List Line → ℤ
requested [] = pos 0
requested (r ∷ rs) = r.requested_quantity +ℤ requested rs

-- What the moves take together.
abbrev pub moved_total : List (Name × ℤ) → ℤ
moved_total [] = pos 0
moved_total ((n, q) ∷ ms) = q +ℤ moved_total ms

-- No move is for the line.
abbrev pub Fresh : Name → List (Name × ℤ) → Type 0
Fresh n = All λ m. m.0 ≢ n

-- Each line is named once.
abbrev pub Distinct : List (Name × ℤ) → Type 0
Distinct [] = Unit
Distinct ((n, q) ∷ ms) = Fresh n ms × Distinct ms

Fresh-add_move :
    (n m : Name) (q : ℤ) (ms : List (Name × ℤ)) → m ≢ n → Fresh n ms → Fresh n (add_move m q ms)
unfolding add_move
Fresh-add_move n m q [] other h = (other, tt)
Fresh-add_move n m q ((k, r) ∷ ms) other h = elim (Bool-cases (k == m)) [
  | inl same ↦ rw same h
  | inr differ ↦ rw differ (h.0, Fresh-add_move n m q ms other h.1)
]

Distinct-add_move :
    (n : Name) (q : ℤ) (ms : List (Name × ℤ)) → Distinct ms → Distinct (add_move n q ms)
unfolding add_move
Distinct-add_move n q [] h = (tt, tt)
Distinct-add_move n q ((k, r) ∷ ms) h = elim (Bool-cases (k == n)) [
  | inl same ↦ rw same h
  | inr differ ↦
      rw differ (Fresh-add_move k n q ms (λ e. ground (arith, e)) h.0, Distinct-add_move n q ms h.1)
]

pub collect_moves-Distinct :
    (rows : List Line) (lines moves : List (Name × ℤ)) {out : List (Name × ℤ)}
    → Distinct moves
    → collect_moves rows lines moves ≡ ok out
    → Distinct out
unfolding collect_moves
collect_moves-Distinct rows [] moves {out} h e =
    let same : moves ≡ out = cc e in subst Distinct same h
collect_moves-Distinct rows ((n, qty) ∷ lines) moves h e =
    let (valid, more) = throw_if-eq-ok _ _ _ e in
    collect_moves-Distinct rows lines (add_move n qty moves) (Distinct-add_move n qty moves h) more

-- A move that may be made: it leaves its line at least what has been touched.
abbrev pub CanMove : List Line → Name × ℤ → Type 0
CanMove rows (n, q) =
    (r : Line) × (find_line n rows ≡ some r) × (q ≤ℤ r.requested_quantity -ℤ touched r)

below_movable : (a t q : ℤ) → ltb_ℤ (pos 0) (q -ℤ (a -ℤ t)) ≡ false → q ≤ℤ a -ℤ t
below_movable a t q h = ground (arith, -ℤ_parts q (a -ℤ t))

pub over_movable-CanMove :
    (rows : List Line) (m : Name × ℤ)
    → over_movable (find_line m.0 rows) m.1 ≡ false
    → CanMove rows m
unfolding over_movable movable_quantity
over_movable-CanMove rows (n, q) h = elim (Option-cases (find_line n rows)) [
  | inl missing ↦ cc (rw missing at h)
  | inr (r, found) ↦
      let fits = rw found at h in (r, found, below_movable r.requested_quantity (touched r) q fits)
]

pub find_line-lower :
    (n m : Name) (q : ℤ) (rows : List Line)
    → m ≢ n
    → find_line m (lower_line n q rows) ≡ find_line m rows
unfolding find_line lower_line
find_line-lower n m q [] other = refl
find_line-lower n m q (r ∷ rs) other = elim (Bool-cases (r.name == n)) [
  | inl here ↦
      let apart : r.name == m ≡ false = ground arith in
      elim (Bool-cases (leb_ℤ (r.requested_quantity -ℤ q) (pos 0))) [
        | inl gone ↦ rw (here, gone, apart) refl
        | inr stays ↦ rw (here, stays, apart) refl
      ]
  | inr there ↦ rw there (rw (find_line-lower n m q rs other) refl)
]
