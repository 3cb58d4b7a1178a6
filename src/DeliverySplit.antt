-- ===== src/DeliverySplit.antt =====
-- frappe_wms/services/delivery_split.py: open quantity of an Outbound Delivery moves to a new one.
-- Quantities are in millionths, so a quantity is over EPS (1e-9) exactly if it is positive.
pub mod Moves
pub mod Conserve
use frappe_ewm.Base.{
  Bool, List, Name, Option, Result, [], all, any, eqb_ℤ, false, if◌then◌else◌, is_some, leb_ℤ,
  ltb_ℤ, map, max_ℤ, none, not, ok, pos, some, throw_if, true, ℕ, ℤ, ◌+ℤ◌, ◌-ℤ◌, ◌==◌, ◌>>=◌, ◌>>◌,
  ◌||◌, ◌∷◌,
}

-- An `Outbound Delivery Item`, less what it only carries along. `name` is the table's key.
pub record Line : Type 0 where
  pub name : Name
  pub item : Name
  pub requested_quantity : ℤ
  pub allocated_quantity : ℤ
  pub picked_quantity : ℤ
  pub packed_quantity : ℤ
  pub issued_quantity : ℤ

pub data DeliveryStatus : Type 0 where
  completed cancelled goods_issued : DeliveryStatus
  in_work : Name → DeliveryStatus

pub data AllocationStatus : Type 0 where
  fully_allocated partially_allocated not_allocated : AllocationStatus

-- An `Outbound Delivery`.
pub record Delivery : Type 0 where
  pub docstatus : ℕ
  pub closed_short : Bool
  pub status : DeliveryStatus
  pub items : List Line
  pub allocation_status : AllocationStatus

-- What is thrown: the caller has no such role; `Only an open, released delivery can be split`;
-- `Give an existing delivery line and a positive quantity`; `only {2} can be split off`;
-- `Everything would move`.
pub data SplitError : Type 0 where
  not_permitted not_open bad_line too_much everything : SplitError

-- What a warehouse step has touched of a line.
unfoldable pub touched : Line → ℤ
touched r =
    max_ℤ (max_ℤ r.allocated_quantity r.picked_quantity) (max_ℤ r.packed_quantity r.issued_quantity)

unfoldable pub movable_quantity : Line → ℤ
movable_quantity r = r.requested_quantity -ℤ touched r

-- `rows.get(name)`
unfoldable pub find_line : Name → List Line → Option Line
find_line n [] = none
find_line n (r ∷ rs) = let rest = find_line n rs in if r.name == n then some r else rest

abbrev pub is_closed : DeliveryStatus → Bool
is_closed (in_work n) = false
is_closed other = true

-- `moves.get(name, 0)`
unfoldable pub moved_of : Name → List (Name × ℤ) → ℤ
moved_of n [] = pos 0
moved_of n ((m, q) ∷ ms) = let rest = moved_of n ms in if m == n then q else rest

-- `moves[name] = moves.get(name, 0) + qty`
unfoldable pub add_move : Name → ℤ → List (Name × ℤ) → List (Name × ℤ)
add_move n qty [] = (n, qty) ∷ []
add_move n qty ((m, q) ∷ ms) =
    let rest = add_move n qty ms in if m == n then (m, q +ℤ qty) ∷ ms else (m, q) ∷ rest

-- The loop over the lines that the caller gives: the moves by line.
unfoldable pub collect_moves :
    List Line → List (Name × ℤ) → List (Name × ℤ) → Result SplitError (List (Name × ℤ))
collect_moves rows [] moves = ok moves
collect_moves rows ((n, qty) ∷ lines) moves =
    throw_if (not (is_some (find_line n rows)) || leb_ℤ qty (pos 0)) bad_line
    >> collect_moves rows lines (add_move n qty moves)

-- One move against what may leave its line.
unfoldable pub over_movable : Option Line → ℤ → Bool
over_movable none qty = true
over_movable (some r) qty = ltb_ℤ (pos 0) (qty -ℤ movable_quantity r)

abbrev pub check_moves : List Line → List (Name × ℤ) → Bool
check_moves rows = any λ m. over_movable (find_line m.0 rows) m.1

-- `left = requested_quantity - qty`: the line is deleted if nothing is left, and lowered otherwise.
unfoldable pub lower_line : Name → ℤ → List Line → List Line
lower_line n qty [] = []
lower_line n qty (r ∷ rs) =
    let left = r.requested_quantity -ℤ qty in
    let rest = lower_line n qty rs in
    if r.name == n
    then if leb_ℤ left (pos 0) then rs else record r { requested_quantity = left } ∷ rs
    else r ∷ rest

unfoldable pub lower_lines : List (Name × ℤ) → List Line → List Line
lower_lines [] rows = rows
lower_lines ((n, qty) ∷ moves) rows = lower_lines moves (lower_line n qty rows)

-- The line of the new delivery: what is in `_LINE_SKIP` starts blank. The new name is given on insert.
unfoldable pub new_line : List Line → Name × ℤ → Line
new_line rows (n, qty) = record {
  name = 0;
  item = elim (find_line n rows) [ none ↦ 0 | some r ↦ r.item ];
  requested_quantity = qty;
  allocated_quantity = pos 0;
  picked_quantity = pos 0;
  packed_quantity = pos 0;
  issued_quantity = pos 0;
}

-- `_refresh_allocation_status`
unfoldable pub refresh_allocation_status : List Line → AllocationStatus
refresh_allocation_status items =
    if all (λ r. leb_ℤ r.requested_quantity r.allocated_quantity) items
    then fully_allocated
    else if any (λ (r : Line). ltb_ℤ (pos 0) r.allocated_quantity) items
    then partially_allocated
    else not_allocated

-- What a split leaves: the delivery, and the lines that the new one is made from.
unfoldable pub split_moves : Delivery → List (Name × ℤ) → Delivery × List Line
split_moves d moves =
    let items = lower_lines moves d.items in
    (
      record d { items = items; allocation_status = refresh_allocation_status items },
      map (new_line d.items) moves,
    )

-- The moves as a whole, against the delivery's lines.
unfoldable pub split_collected :
    Delivery → List (Name × ℤ) → Result SplitError (Delivery × List Line)
split_collected d moves =
    throw_if (check_moves d.items moves) too_much
    >> throw_if
        (all (λ (r : Line). eqb_ℤ (r.requested_quantity -ℤ moved_of r.name moves) (pos 0)) d.items)
        everything
    >> ok (split_moves d moves)

abbrev pub cannot_split : Delivery → Bool
cannot_split d = not (d.docstatus == 1) || d.closed_short || is_closed d.status

-- `split_outbound_delivery`, up to the documents that erp_integration.py makes of the new lines.
-- `has_role` is the outcome of `require_role`.
unfoldable pub split_outbound_delivery :
    Bool → Delivery → List (Name × ℤ) → Result SplitError (Delivery × List Line)
split_outbound_delivery has_role d lines =
    throw_if (not has_role) not_permitted
    >> (throw_if (cannot_split d) not_open
        >> (collect_moves d.items lines [] >>= split_collected d))
