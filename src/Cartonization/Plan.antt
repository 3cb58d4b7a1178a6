-- ===== src/Cartonization/Plan.antt =====
-- The plan of frappe_wms/services/cartonization.py. Quantities and limits are in millionths, the weight
-- and volume of one unit are whole numbers, so the tolerance `EPS` has nothing to even out.
use frappe_ewm.Base.{
  Bool, List, Name, Option, Result, [], any, err, false, from_option, if◌then◌else◌, is_empty,
  is_set, keep, last?, leb, ltb, map, none, not, ok, some, sorted, suc, throw_if, true, zero, ℕ,
  ◌&&◌, ◌*◌, ◌++◌, ◌+◌, ◌-◌, ◌/◌, ◌==◌, ◌>>=◌, ◌>>◌, ◌||◌, ◌∷◌,
}
use frappe_ewm.Cartonization.Types.{
  Carton, CartonError, CartonRow, Delivery, DeliveryItem, DeliveryStatus, HuType, PlannedHu,
  Session, already_packed, does_not_fit, no_measure, no_types, not_open, not_permitted,
  other_status, out_of_rounds,
}

-- One unit, in millionths.
abbrev pub unit : ℕ
unit = 1000000

-- The units that the room left takes by one measure, if that measure limits.
unfoldable pub fit_by : Option ℕ → ℕ → Option ℕ
fit_by none each = none
fit_by (some room) each = if ltb 0 each then some (room / (each * unit)) else none

abbrev smaller : Option ℕ → Option ℕ → Option ℕ
smaller none b = b
smaller (some a) none = some a
smaller (some a) (some b) = some (if ltb b a then b else a)

-- `10 ** 9`
abbrev pub unlimited : ℕ
unlimited = 1000000000

-- `_fit`
unfoldable pub fit : ℕ → ℕ → Option ℕ → Option ℕ → ℕ
fit w v room_w room_v = from_option unlimited (smaller (fit_by room_w w) (fit_by room_v v))

-- `t.maximum_weight or None`
abbrev pub limit : ℕ → Option ℕ
limit m = if m == 0 then none else some m

unfoldable pub type_fit : ℕ → ℕ → HuType → ℕ
type_fit w v t = fit w v (limit t.maximum_weight) (limit t.maximum_volume)

abbrev pub open_type : HuType → Carton
open_type t = record {
  hu_type = t.name;
  room_w = limit t.maximum_weight;
  room_v = limit t.maximum_volume;
  rows = [];
}

unfoldable pub usable_types : ℕ → ℕ → List HuType → List HuType
usable_types w v types = keep (λ t. leb 1 (type_fit w v t)) types

unfoldable pub whole_types : ℕ → ℕ → ℕ → List HuType → List HuType
whole_types qty w v types = keep (λ t. leb qty (type_fit w v t * unit)) (usable_types w v types)

-- `whole[0] if whole else usable[-1]`
unfoldable pub open_first : List HuType → Option HuType → Result CartonError Carton
open_first (t ∷ ts) largest = ok (open_type t)
open_first [] none = err does_not_fit
open_first [] (some t) = ok (open_type t)

-- `_open_carton`
unfoldable pub open_carton : List HuType → ℕ → ℕ → ℕ → Result CartonError Carton
open_carton types qty w v = open_first (whole_types qty w v types) (last? (usable_types w v types))

-- `c["rows"].setdefault(item, [0, 0, 0])` and the additions to it.
unfoldable pub add_row : Name → ℕ → ℕ → ℕ → List CartonRow → List CartonRow
add_row item k w v [] = record { item = item; quantity = k; weight = k * w; volume = k * v } ∷ []
add_row item k w v (r ∷ rs) =
    let rest = add_row item k w v rs in
    if r.item == item
    then record r {
      quantity = r.quantity + k;
      weight = r.weight + k * w;
      volume = r.volume + k * v;
    }
      ∷ rs
    else r ∷ rest

abbrev pub less_room : Option ℕ → ℕ → Option ℕ
less_room none used = none
less_room (some room) used = some (room - used)

unfoldable pub put_in : Name → ℕ → ℕ → ℕ → Carton → Carton
put_in item k w v c = record c {
  room_w = less_room c.room_w (k * w);
  room_v = less_room c.room_v (k * v);
  rows = add_row item k w v c.rows;
}

abbrev pub carton_fit : ℕ → ℕ → Carton → ℕ
carton_fit w v c = fit w v c.room_w c.room_v

-- `min(qty, fit)`
abbrev pub chunk : ℕ → ℕ → ℕ
chunk qty f = if ltb (f * unit) qty then f * unit else qty

-- The first carton with room for a unit takes what it can: how much, and the cartons then.
unfoldable pub put_first : Name → ℕ → ℕ → ℕ → List Carton → Option (ℕ × List Carton)
put_first item qty w v [] = none
put_first item qty w v (c ∷ cs) =
    let rest = put_first item qty w v cs in
    if leb 1 (carton_fit w v c)
    then (let k = chunk qty (carton_fit w v c) in some (k, put_in item k w v c ∷ cs))
    else elim rest [ none ↦ none | some (k, cs') ↦ some (k, c ∷ cs') ]

-- The `else` of the `for`: a new carton takes the first part.
unfoldable pub put_new :
    List HuType → Name → ℕ → ℕ → ℕ → List Carton → Result CartonError (ℕ × List Carton)
put_new types item qty w v cs = do
  c ← open_carton types qty w v
  let k = chunk qty (carton_fit w v c)
  ok (k, cs ++ put_in item k w v c ∷ [])

abbrev pub or_else :
    Option (ℕ × List Carton)
    → Result CartonError (ℕ × List Carton)
    → Result CartonError (ℕ × List Carton)
or_else none new = new
or_else (some found) new = ok found

-- One round of the loop.
unfoldable pub put_some :
    List HuType → Name → ℕ → ℕ → ℕ → List Carton → Result CartonError (ℕ × List Carton)
put_some types item qty w v cs = or_else (put_first item qty w v cs) (put_new types item qty w v cs)

-- `while qty > EPS`, for a bounded number of rounds.
unfoldable pub pack_line :
    List HuType → Name → ℕ → ℕ → ℕ → ℕ → List Carton → Result CartonError (List Carton)
pack_line types item w v zero qty cs = if qty == 0 then ok cs else err out_of_rounds
pack_line types item w v (suc rounds) qty cs =
    if qty == 0
    then ok cs
    else (put_some types item qty w v cs >>= λ put.
        pack_line types item w v rounds (qty - put.0) put.1)

-- An element of `lines`.
pub record Line : Type 0 where
  pub item : Name
  pub quantity : ℕ
  pub weight : ℕ
  pub volume : ℕ

unfoldable pub line_of : Session → DeliveryItem → Result CartonError Line
line_of s i = do
  throw_if ((s.gross_weight_per_unit i.item == 0) && (s.volume_per_unit i.item == 0)) no_measure
  ok (record {
    item = i.item;
    quantity = i.requested_quantity;
    weight = s.gross_weight_per_unit i.item;
    volume = s.volume_per_unit i.item;
  })

unfoldable pub lines_of : Session → List DeliveryItem → Result CartonError (List Line)
lines_of s [] = ok []
lines_of s (i ∷ is) = do l ← line_of s i; ls ← lines_of s is; ok (l ∷ ls)

-- The order of `sorted(lines, key=lambda l: (l[3], l[2]), reverse=True)`.
abbrev pub bigger : Line → Line → Bool
bigger a b = ltb b.volume a.volume || ((a.volume == b.volume) && ltb b.weight a.weight)

unfoldable pub pack_lines : List HuType → List Line → List Carton → Result CartonError (List Carton)
pack_lines types [] cs = ok cs
pack_lines types (l ∷ ls) cs = do
  cs' ← pack_line types l.item l.weight l.volume l.quantity l.quantity cs
  pack_lines types ls cs'

unfoldable pub planned_rows : ℕ → Name → List CartonRow → List PlannedHu
planned_rows n hu_type [] = []
planned_rows n hu_type (r ∷ rs) =
    record {
      carton_no = n;
      hu_type = hu_type;
      item = r.item;
      quantity = r.quantity;
      weight = r.weight;
      volume = r.volume;
      handling_unit = 0;
    }
    ∷ planned_rows n hu_type rs

unfoldable pub planned_hus_of : ℕ → List Carton → List PlannedHu
planned_hus_of n [] = []
planned_hus_of n (c ∷ cs) = planned_rows n c.hu_type c.rows ++ planned_hus_of (n + 1) cs

abbrev pub is_finished : DeliveryStatus → Bool
is_finished other_status = false
is_finished _ = true

-- `plan_cartons`
unfoldable pub plan_cartons : Session → Delivery → Result CartonError (List Carton × Delivery)
plan_cartons s d = do
  throw_if (not s.has_role) not_permitted
  throw_if (not (d.docstatus == 1) || (d.closed_short || is_finished d.status)) not_open
  throw_if (any (λ i. ltb 0 i.packed_quantity) d.items || s.has_hu d.name) already_packed
  throw_if (is_empty s.types) no_types
  lines ← lines_of s d.items
  cs ← pack_lines s.types (sorted bigger lines) []
  ok (cs, record d { planned_hus = planned_hus_of 1 cs })

-- `next_planned_hu`, of rows in the order of their carton
unfoldable pub next_planned_hu : List PlannedHu → Option (ℕ × Name)
next_planned_hu [] = none
next_planned_hu (r ∷ rs) =
    let rest = next_planned_hu rs in
    if not (is_set r.handling_unit) then some (r.carton_no, r.hu_type) else rest

-- `link_planned_hu`
unfoldable pub link_planned_hu : ℕ → Name → List PlannedHu → List PlannedHu
link_planned_hu carton_no hu =
    map λ r. if r.carton_no == carton_no then record r { handling_unit = hu } else r
