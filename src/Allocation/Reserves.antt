-- ===== src/Allocation/Reserves.antt =====
-- What `allocate_delivery` (frappe_wms/services/allocation.py) does to reservations.
use frappe_ewm.Base.{
  +ℤ_assoc, +ℤ_comm, All, Bool-cases, List, Option, Option-cases, [], ap, arith, false, inl, inr,
  int_laws, leb_ℤ, min_ℤ, none, pos, refl, some, sorted, subst, sym, take, ℤ, ◌++◌, ◌+ℤ◌, ◌-ℤ◌,
  ◌<ℤ◌, ◌∙◌, ◌∷◌, ◌≡◌, ◌≤ℤ◌, -ℤ_parts,
}
use frappe_ewm.Allocation.Allocate.{
  line_after, new_allocation, reserve, special_first, take_all, take_from, take_row, taken,
}
use frappe_ewm.Allocation.Types.{Db, Delivery, Line, Master, StockAllocation}
use frappe_ewm.Stock.Bounds.{All-find, All-save}
use frappe_ewm.Stock.Rows.{find_balance}
use frappe_ewm.Stock.Types.{Balance}

-- A row promises what it holds and has not reserved, and never less than nothing.
abbrev pub IsCovered : Balance → Type 0
IsCovered b =
    (b.available_quantity ≡ b.quantity -ℤ b.allocated_quantity) × (pos 0 ≤ℤ b.available_quantity)

-- What a list of allocations reserves.
abbrev pub reserved_total : List StockAllocation → ℤ
reserved_total [] = pos 0
reserved_total (a ∷ rows) = a.allocated_quantity +ℤ reserved_total rows

reserve_balances :
    (available quantity held_back take : ℤ)
    → available ≡ quantity -ℤ held_back
    → available -ℤ take ≡ quantity -ℤ (held_back +ℤ take)
reserve_balances available quantity held_back take h = rw h (omega int_laws)

reserve_leaves : (needed available : ℤ) → pos 0 ≤ℤ available -ℤ min_ℤ needed available
reserve_leaves needed available =
    ground (arith, -ℤ_parts available needed, -ℤ_parts available available)

reserve-IsCovered :
    (needed : ℤ) (b : Balance)
    → IsCovered b
    → pos 0 <ℤ b.available_quantity
    → IsCovered (reserve (min_ℤ needed b.available_quantity) b)
unfolding reserve
reserve-IsCovered needed b h some_left = (
  reserve_balances b.available_quantity b.quantity b.allocated_quantity
      (min_ℤ needed b.available_quantity) h.0,
  reserve_leaves needed b.available_quantity,
)

reserved_total-append :
    (rows : List StockAllocation) (a : StockAllocation)
    → reserved_total (rows ++ a ∷ []) ≡ reserved_total rows +ℤ a.allocated_quantity
reserved_total-append [] a = +ℤ_comm _ (pos 0)
reserved_total-append (x ∷ rows) a =
    rw (reserved_total-append rows a)
      (sym (+ℤ_assoc x.allocated_quantity (reserved_total rows) a.allocated_quantity))

-- What one candidate that is taken from leaves.
abbrev Takes : ℤ → Db → ℤ × Db → Type 0
Takes needed db (qty, db') =
    All IsCovered db'.balances
    × (reserved_total db'.allocations ≡ reserved_total db.allocations +ℤ qty)
    × (qty ≤ℤ needed)
    × (pos 0 <ℤ needed → pos 0 <ℤ qty)

taken-Takes :
    (m : Master) (d : Delivery) (row : Line) (needed : ℤ) (stock fresh : Balance) (db : Db)
    → All IsCovered db.balances
    → IsCovered fresh
    → leb_ℤ fresh.available_quantity (pos 0) ≡ false
    → Takes needed db (taken m d row needed stock fresh db)
unfolding taken new_allocation
taken-Takes m d row needed stock fresh db h covered some_left = (
  All-save IsCovered (reserve (min_ℤ needed fresh.available_quantity) fresh) db.balances
      (reserve-IsCovered needed fresh covered (ground arith)) h,
  reserved_total-append db.allocations _,
  ground arith,
  λ needs. ground arith,
)

take_row-Takes :
    (m : Master) (d : Delivery) (row : Line) (needed : ℤ) (stock : Balance) (db : Db)
    (found : Option Balance) {out : ℤ × Db}
    → All IsCovered db.balances
    → find_balance stock.name db.balances ≡ found
    → take_row m d row needed stock db found ≡ some out
    → Takes needed db out
unfolding take_row
take_row-Takes m d row needed stock db none h f e = cc
take_row-Takes m d row needed stock db (some fresh) {out} h f e =
    elim (Bool-cases (leb_ℤ fresh.available_quantity (pos 0))) [
      | inl nothing ↦ cc (rw nothing at e)
      | inr some_left ↦
          let same : taken m d row needed stock fresh db ≡ out = ground arith in
          subst (λ o. Takes needed db o) same
            (taken-Takes m d row needed stock fresh db h
              (All-find IsCovered stock.name db.balances h f) some_left)
    ]

take_from-Takes :
    (m : Master) (d : Delivery) (row : Line) (needed : ℤ) (stock : Balance) (db : Db) {out : ℤ × Db}
    → All IsCovered db.balances
    → take_from m d row needed stock db ≡ some out
    → Takes needed db out
unfolding take_from
take_from-Takes m d row needed stock db h e =
    take_row-Takes m d row needed stock db (find_balance stock.name db.balances) h refl e

-- What the loop over the candidates leaves: no row promises more than it holds, what is not reserved
-- is still needed, and nothing is reserved beyond the need.
abbrev pub Reserves : ℤ → Db → ℤ × Db → Type 0
Reserves needed db (left, db') =
    All IsCovered db'.balances
    × (reserved_total db'.allocations +ℤ left ≡ reserved_total db.allocations +ℤ needed)
    × (pos 0 ≤ℤ needed → pos 0 ≤ℤ left)
    × (left ≤ℤ needed)

add_take :
    (now before left needed qty : ℤ)
    → now +ℤ left ≡ before +ℤ qty +ℤ (needed -ℤ qty)
    → now +ℤ left ≡ before +ℤ needed
add_take now before left needed qty h = h ∙ omega int_laws

sub_le : (left needed qty : ℤ) → left ≤ℤ needed -ℤ qty → pos 0 <ℤ qty → left ≤ℤ needed
sub_le left needed qty h q = omega int_laws

sub_nonneg : (needed qty : ℤ) → qty ≤ℤ needed → pos 0 ≤ℤ needed -ℤ qty
sub_nonneg needed qty h = omega int_laws

-- A candidate that is taken from, and then the rest of the loop.
Reserves-next :
    (needed : ℤ) (db : Db) (out later : ℤ × Db)
    → pos 0 <ℤ needed
    → Takes needed db out
    → Reserves (needed -ℤ out.0) out.1 later
    → Reserves needed db later
Reserves-next needed db (qty, db') (left, db'') some_need t r = (
  r.0,
  add_take (reserved_total db''.allocations) (reserved_total db.allocations) left needed qty
      (r.1 ∙ ap (λ x. x +ℤ (needed -ℤ qty)) t.1),
  λ _. r.2 (sub_nonneg needed qty t.2),
  sub_le left needed qty r.3 (t.3 some_need),
)

take_all-Reserves :
    (m : Master) (d : Delivery) (row : Line) (needed : ℤ) (stocks : List Balance) (db : Db)
    → All IsCovered db.balances
    → Reserves needed db (take_all m d row needed stocks db)
unfolding take_all
take_all-Reserves m d row needed [] db h = (h, refl, λ p. p, omega arith)
take_all-Reserves m d row needed (stock ∷ rest) db h = elim (Bool-cases (leb_ℤ needed (pos 0))) [
  | inl enough ↦ rw enough (h, refl, λ p. p, omega arith)
  | inr more ↦ elim (Option-cases (take_from m d row needed stock db)) [
    | inl skipped ↦ rw (more, skipped) (take_all-Reserves m d row needed rest db h)
    | inr (out, took) ↦
        rw (more, took)
          (Reserves-next needed db out (take_all m d row (needed -ℤ out.0) rest out.1)
            (ground arith) (take_from-Takes m d row needed stock db h took)
            (take_all-Reserves m d row (needed -ℤ out.0) rest out.1
              (take_from-Takes m d row needed stock db h took).0))
  ]
]

-- What a line of a delivery has to show for its allocations.
abbrev pub LineReserves : Line → Db → Line × Db → Type 0
LineReserves row db (row', db') =
    All IsCovered db'.balances
    × (reserved_total db'.allocations +ℤ row.allocated_quantity
        ≡ reserved_total db.allocations +ℤ row'.allocated_quantity)
    × (row.allocated_quantity ≤ℤ row'.allocated_quantity)
    × (row.allocated_quantity ≤ℤ row.requested_quantity
        → row'.allocated_quantity ≤ℤ row.requested_quantity)

line_sums :
    (now before left requested had : ℤ)
    → now +ℤ left ≡ before +ℤ (requested -ℤ had)
    → now +ℤ had ≡ before +ℤ (requested -ℤ left)
line_sums now before left requested had h = grind int_laws

line_bounds :
    (left requested had : ℤ)
    → (pos 0 ≤ℤ requested -ℤ had → pos 0 ≤ℤ left)
    → left ≤ℤ requested -ℤ had
    → (had ≤ℤ requested -ℤ left) × (had ≤ℤ requested → requested -ℤ left ≤ℤ requested)
line_bounds left requested had f h =
    (omega int_laws, λ p. let q = f (sub_nonneg requested had p) in omega int_laws)

pub line_after-Reserves :
    (m : Master) (d : Delivery) (row : Line) (db : Db) (candidates : List Balance)
    → All IsCovered db.balances
    → LineReserves row db (line_after m d row db candidates)
unfolding line_after
line_after-Reserves m d row db candidates h =
    let needed = row.requested_quantity -ℤ row.allocated_quantity in
    let stocks = sorted special_first candidates in
    let (left, db') = take_all m d row needed stocks db in
    let r = take_all-Reserves m d row needed stocks db h in
    let bounds = line_bounds left row.requested_quantity row.allocated_quantity r.2 r.3 in
    (
      r.0,
      line_sums (reserved_total db'.allocations) (reserved_total db.allocations) left
          row.requested_quantity row.allocated_quantity r.1,
      bounds.0,
      bounds.1,
    )
