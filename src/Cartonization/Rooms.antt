-- ===== src/Cartonization/Rooms.antt =====
-- The limits of the cartons of frappe_wms/services/cartonization.py.
use native.Mathlib.Omega.{div_any}
use native.Mathlib.Nat.{mul-le-mul_right}
use frappe_ewm.Base.{
  All, Bool-cases, Has, Has-map, List, Name, Option, Option-cases, [], all, ap, arith, inl, inr,
  leb, none, refl, some, subst, ℕ, ◌*◌, ◌+◌, ◌-◌, ◌/◌, ◌==◌, ◌∷◌, ◌≡◌, ◌≤◌, ◌⊎◌,
}
use frappe_ewm.Cartonization.Plan.{
  add_row, carton_fit, chunk, fit, fit_by, less_room, put_first, put_in, unit,
}
use frappe_ewm.Cartonization.Types.{Carton, CartonRow, HuType}

-- What a carton's room left and what is used of it make up, if there is a limit.
abbrev pub Filled : ℕ → Option ℕ → ℕ → Type 0
Filled max room used = ((max ≡ 0) × (room ≡ none)) ⊎ ((r : ℕ) × (room ≡ some r) × (used + r ≡ max))

div_mul_le : (r b : ℕ) → b * (r / b) ≤ r
div_mul_le r b = omega (arith, div_any r b)

fit_w_le : (w v r : ℕ) (room_v : Option ℕ) → 1 ≤ w → fit w v (some r) room_v ≤ r / (w * unit)
unfolding fit fit_by
fit_w_le w v r room_v h = ground arith

fits_w : (w v r k : ℕ) (room_v : Option ℕ) → k ≤ fit w v (some r) room_v * unit → k * w ≤ r
fits_w w v r k room_v h = elim (Bool-cases (w == 0)) [
  | inl light ↦ let e : w ≡ 0 = ground arith in rw e (omega arith)
  | inr heavy ↦
      let q = r / (w * unit) in
      let le : k ≤ q * unit = omega (arith, fit_w_le w v r room_v (ground arith)) in
      omega (arith, mul-le-mul_right w le, div_mul_le r (w * unit))
]

fit_swap : (w v : ℕ) (room_w room_v : Option ℕ) → fit w v room_w room_v ≡ fit v w room_v room_w
unfolding fit fit_by
fit_swap w v none none = refl
fit_swap w v none (some b) = ground arith
fit_swap w v (some a) none = ground arith
fit_swap w v (some a) (some b) = ground arith

chunk-fits : (qty f : ℕ) → chunk qty f ≤ f * unit
chunk-fits qty f = ground arith

-- What is put in by one measure, `w`, keeps to the limit.
fill_more :
    (max used w v k : ℕ) (room other : Option ℕ)
    → Filled max room used
    → k ≤ fit w v room other * unit
    → Filled max (less_room room (k * w)) (used + k * w)
fill_more max used w v k room other (inl (no_max, no_room)) fits =
    inl (no_max, ap (λ o. less_room o (k * w)) no_room)
fill_more max used w v k room other (inr (r, is_room, full)) fits =
    let le : k * w ≤ r =
      fits_w w v r k other (subst (λ o. k ≤ fit w v o other * unit) is_room fits) in
    inr (r - k * w, ap (λ o. less_room o (k * w)) is_room, omega (arith, le, full))

abbrev pub row_weight : List CartonRow → ℕ
row_weight [] = 0
row_weight (r ∷ rs) = r.weight + row_weight rs

abbrev pub row_volume : List CartonRow → ℕ
row_volume [] = 0
row_volume (r ∷ rs) = r.volume + row_volume rs

add_row-measures :
    (item : Name) (k w v : ℕ) (rs : List CartonRow)
    → (row_weight rs + k * w ≡ row_weight (add_row item k w v rs))
      × (row_volume rs + k * v ≡ row_volume (add_row item k w v rs))
unfolding add_row
add_row-measures item k w v [] = (omega arith, omega arith)
add_row-measures item k w v (r ∷ rs) = elim (Bool-cases (r.item == item)) [
  | inl mine ↦ rw mine (omega arith, omega arith)
  | inr other ↦
      let (a, b) = add_row-measures item k w v rs in rw other (omega (arith, a), omega (arith, b))
]

-- The carton is of a packaging whose limits it keeps.
abbrev pub FillsType : Carton → HuType → Type 0
FillsType c t =
    (t.name ≡ c.hu_type)
    × Filled t.maximum_weight c.room_w (row_weight c.rows)
    × Filled t.maximum_volume c.room_v (row_volume c.rows)

abbrev pub IsWithin : List HuType → Carton → Type 0
IsWithin types c = Has (FillsType c) types

pub put_in-IsWithin :
    (types : List HuType) (item : Name) (qty w v : ℕ) (c : Carton)
    → IsWithin types c
    → IsWithin types (put_in item (chunk qty (carton_fit w v c)) w v c)
unfolding put_in
put_in-IsWithin types item qty w v c within =
    let k = chunk qty (carton_fit w v c) in
    let fits : k ≤ fit w v c.room_w c.room_v * unit = chunk-fits qty (carton_fit w v c) in
    let (weights, volumes) = add_row-measures item k w v c.rows in
    Has-map (FillsType c) (FillsType (put_in item k w v c)) types
      (λ t fills. (
        fills.0,
        subst (Filled t.maximum_weight (less_room c.room_w (k * w))) weights
            (fill_more t.maximum_weight (row_weight c.rows) w v k c.room_w c.room_v fills.1 fits),
        subst (Filled t.maximum_volume (less_room c.room_v (k * v))) volumes (
            fill_more t.maximum_volume (row_volume c.rows) v w k c.room_v c.room_w fills.2
              (subst (λ f. k ≤ f * unit) (fit_swap w v c.room_w c.room_v) fits)),
      ))
      within

pub put_first-IsWithin :
    (types : List HuType) (item : Name) (qty w v : ℕ) (cs : List Carton) {put : ℕ × List Carton}
    → All (IsWithin types) cs
    → put_first item qty w v cs ≡ some put
    → All (IsWithin types) put.1
unfolding put_first
put_first-IsWithin types item qty w v [] all found = cc found
put_first-IsWithin types item qty w v (c ∷ cs) {put} all found =
    elim (Bool-cases (leb 1 (carton_fit w v c))) [
      | inl room ↦
          let k = chunk qty (carton_fit w v c) in
          let same : (k, put_in item k w v c ∷ cs) ≡ put = cc (rw room at found) in
          subst (λ p. All (IsWithin types) p.1) same
            (put_in-IsWithin types item qty w v c all.0, all.1)
      | inr full ↦ elim (Option-cases (put_first item qty w v cs)) [
        | inl nowhere ↦ cc (rw (full, nowhere) at found)
        | inr (later, there) ↦
            let same : (later.0, c ∷ later.1) ≡ put = cc (rw (full, there) at found) in
            subst (λ p. All (IsWithin types) p.1) same
              (all.0, put_first-IsWithin types item qty w v cs all.1 there)
      ]
    ]
