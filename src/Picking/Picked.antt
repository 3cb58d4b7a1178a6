-- ===== src/Picking/Picked.antt =====
-- Picking never picks more than was allocated (frappe_wms/services/task.py).
use frappe_ewm.Base.{
  All, Bool-cases, List, Name, Option, Option-cases, [], arith, inl, inr, int_laws, is_empty, leb_ℤ,
  min_ℤ, none, ok, pos, refl, some, subst, take, ℤ, ◌+ℤ◌, ◌-ℤ◌, ◌<ℤ◌, ◌==◌, ◌∙◌, ◌∷◌, ◌≡◌, ◌≤ℤ◌,
  -ℤ_parts,
}
use frappe_ewm.Allocation.Types.{StockAllocation}
use frappe_ewm.Picking.{
  Db, PickTask, find_allocation, outstanding, pick_less, pick_more, pick_one, pick_rows,
  save_allocation, update_allocations, update_picking_status,
}
use frappe_ewm.Stock.Balance.{release_allocation}
use frappe_ewm.Stock.Types.{Env}

-- 0 ≤ picked ≤ allocated.
abbrev pub IsPickable : StockAllocation → Type 0
IsPickable a = (pos 0 ≤ℤ a.picked_quantity) × (a.picked_quantity ≤ℤ a.allocated_quantity)

-- What the allocations have picked.
abbrev pub picked_total : List StockAllocation → ℤ
picked_total [] = pos 0
picked_total (a ∷ rows) = a.picked_quantity +ℤ picked_total rows

pub All-save :
    (P : StockAllocation → Type 0) (d : StockAllocation) (rows : List StockAllocation)
    → P d
    → All P rows
    → All P (save_allocation d rows)
unfolding save_allocation
All-save P d [] p h = tt
All-save P d (a ∷ rows) p h = elim (Bool-cases (a.name == d.name)) [
  | inl old ↦ rw old (p, h.1)
  | inr other ↦ rw other (h.0, All-save P d rows p h.1)
]

abbrev HeldBy : (StockAllocation → Type 0) → Option StockAllocation → Type 0
HeldBy P none = Unit
HeldBy P (some b) = P b

pub All-find :
    (P : StockAllocation → Type 0) (n : Name) (rows : List StockAllocation) {a : StockAllocation}
    → All P rows
    → find_allocation n rows ≡ some a
    → P a × (a.name ≡ n)
unfolding find_allocation
All-find P n [] h e = cc
All-find P n (c ∷ rows) {a} h e = elim (Bool-cases (c.name == n)) [
  | inl here ↦ let same : c ≡ a = ground arith in rw (← same) (h.0, ground arith)
  | inr there ↦ All-find P n rows h.1 (rw there at e)
]

total-save :
    (n : Name) (d : StockAllocation) (rows : List StockAllocation) {a : StockAllocation}
    → d.name ≡ n
    → find_allocation n rows ≡ some a
    → picked_total (save_allocation d rows) +ℤ a.picked_quantity
      ≡ picked_total rows +ℤ d.picked_quantity
unfolding find_allocation save_allocation
total-save n d [] same e = cc
total-save n d (b ∷ rows) {a} same e = grind (int_laws, total-save n d rows {a = a} same)

pub update_picking_status-allocations :
    (delivery : Name) (db : Db) → (update_picking_status delivery db).allocations ≡ db.allocations
unfolding update_picking_status
update_picking_status-allocations delivery db = ground arith

-- What a run over the rows of a pick task leaves.
abbrev pub Picks : ℤ → Db → ℤ × Db → Type 0
Picks remaining db (left, db') =
    All IsPickable db'.allocations
    × (picked_total db'.allocations +ℤ left ≡ picked_total db.allocations +ℤ remaining)
    × (pos 0 ≤ℤ remaining → pos 0 ≤ℤ left)

pick_more-IsPickable :
    (take : ℤ) (a : StockAllocation)
    → IsPickable a
    → pos 0 ≤ℤ take
    → take ≤ℤ outstanding a
    → IsPickable (pick_more take a)
unfolding pick_more
pick_more-IsPickable take a h low high = (omega int_laws, omega int_laws)

pick_sums :
    (now had before take remaining : ℤ)
    → now +ℤ had ≡ before +ℤ (had +ℤ take)
    → now +ℤ (remaining -ℤ take) ≡ before +ℤ remaining
pick_sums now had before take remaining h = grind int_laws

pub take_bounds :
    (remaining rest : ℤ)
    → pos 0 <ℤ remaining
    → pos 0 <ℤ rest
    → (pos 0 ≤ℤ min_ℤ remaining rest)
      × (min_ℤ remaining rest ≤ℤ rest)
      × (pos 0 ≤ℤ remaining -ℤ min_ℤ remaining rest)
take_bounds remaining rest p q =
    ground (arith, -ℤ_parts remaining rest, -ℤ_parts remaining remaining)

pick_one-Picks :
    (remaining : ℤ) (n : Name) (a : StockAllocation) (db : Db)
    → All IsPickable db.allocations
    → find_allocation n db.allocations ≡ some a
    → pos 0 <ℤ remaining
    → pos 0 <ℤ outstanding a
    → let take = min_ℤ remaining (outstanding a) in
      Picks remaining db (remaining -ℤ take, pick_one take a db)
unfolding pick_one
pick_one-Picks remaining n a db h e more some_left =
    let take = min_ℤ remaining (outstanding a) in
    let (ok_a, named) = All-find IsPickable n db.allocations h e in
    let (low, high, left) = take_bounds remaining (outstanding a) more some_left in
    rw update_picking_status-allocations (
      All-save IsPickable (pick_more take a) db.allocations
          (pick_more-IsPickable take a ok_a low high) h,
      pick_sums _ a.picked_quantity (picked_total db.allocations) take remaining (
          total-save n (pick_more take a) db.allocations (unfold pick_more in named) e
          ∙ unfold pick_more in refl),
      λ _. left,
    )

-- One run and then another.
Picks-trans :
    (remaining : ℤ) (db : Db) (mid out : ℤ × Db)
    → Picks remaining db mid
    → Picks mid.0 mid.1 out
    → Picks remaining db out
Picks-trans remaining db mid out p q = (q.0, q.1 ∙ p.1, λ h. q.2 (p.2 h))

pick_rows-Picks :
    (remaining : ℤ) (names : List Name) (db : Db) {out : ℤ × Db}
    → All IsPickable db.allocations
    → pick_rows remaining names db ≡ ok out
    → Picks remaining db out
unfolding pick_rows
pick_rows-Picks remaining [] db {out} h e =
    let same : (remaining, db) ≡ out = cc e in
    subst (λ o. Picks remaining db o) same (h, refl, λ p. p)
pick_rows-Picks remaining (n ∷ names) db {out} h e = elim (Bool-cases (leb_ℤ remaining (pos 0))) [
  | inl enough ↦
      let same : (remaining, db) ≡ out = cc (rw enough at e) in
      subst (λ o. Picks remaining db o) same (h, refl, λ p. p)
  | inr more ↦ elim (Option-cases (find_allocation n db.allocations)) [
    | inl missing ↦ cc (rw (more, missing) at e)
    | inr (a, found) ↦ elim (Bool-cases (leb_ℤ (outstanding a) (pos 0))) [
      | inl nothing ↦ pick_rows-Picks remaining names db h (rw (more, found, nothing) at e)
      | inr some_left ↦
          let take = min_ℤ remaining (outstanding a) in
          let one = pick_one-Picks remaining n a db h found (ground arith) (ground arith) in
          Picks-trans remaining db (remaining -ℤ take, pick_one take a db) out one
            (pick_rows-Picks (remaining -ℤ take) names (pick_one take a db) one.0
              (rw (more, found, some_left) at e))
    ]
  ]
]

update_allocations-runs :
    (env : Env) (task : PickTask) (qty : ℤ) (db : Db) {out : ℤ × Db}
    → All IsPickable db.allocations
    → update_allocations env task qty db ≡ ok out
    → Picks qty db out
unfolding update_allocations
update_allocations-runs env task qty db {out} h e =
    elim (Bool-cases (is_empty task.stock_allocations)) [
      | inl no_rows ↦
          let same : (qty, db) ≡ out = cc (rw no_rows at e) in
          subst (λ o. Picks qty db o) same (h, refl, λ p. p)
      | inr rows ↦
          pick_rows-Picks qty task.stock_allocations
            (record db { stock = release_allocation env task.place task.owner qty db.stock }) h
            (rw rows at e)
    ]

-- Confirming a pick of a quantity that is not negative picks no allocation past what was allocated
-- to it, if none was before, and raises the picked total by exactly the quantity less what is
-- reported left over, which is not negative.
pub update_allocations-picks :
    (env : Env) (task : PickTask) (qty : ℤ) (db : Db) {out : ℤ × Db}
    → pos 0 ≤ℤ qty
    → All IsPickable db.allocations
    → update_allocations env task qty db ≡ ok out
    → All IsPickable out.1.allocations
      × (picked_total out.1.allocations +ℤ out.0 ≡ picked_total db.allocations +ℤ qty)
      × (pos 0 ≤ℤ out.0)
update_allocations-picks env task qty db nonneg h e =
    let (kept, total, left) = update_allocations-runs env task qty db h e in
    (kept, total, left nonneg)

-- Picking a quantity back from an allocation undoes picking it: the picked quantity is what it
-- was.
pick_less-pick_more :
    (take : ℤ) (a : StockAllocation)
    → (pick_less take (pick_more take a)).picked_quantity ≡ a.picked_quantity
unfolding pick_less pick_more
pick_less-pick_more take a = omega int_laws
