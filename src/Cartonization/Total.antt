-- ===== src/Cartonization/Total.antt =====
-- What the plan of frappe_wms/services/cartonization.py packs.
use frappe_ewm.Base.{
  All, Bool-cases, List, Name, Option-cases, [], ap, arith, false, if◌then◌else◌, inl, inr,
  is_empty, leb, ok, refl, some, subst, suc, zero, ℕ, ◌++◌, ◌+◌, ◌-◌, ◌==◌, ◌∷◌, ◌≡◌, ◌≤◌,
}
use frappe_ewm.Cartonization.Ends.{chunk-bounds, open_carton-Takes}
use frappe_ewm.Cartonization.Plan.{
  Line, add_row, carton_fit, chunk, pack_line, pack_lines, put_first, put_in, put_new, put_some,
  usable_types,
}
use frappe_ewm.Cartonization.Types.{Carton, CartonRow, HuType}

-- The quantity of an item in the rows of a carton, and in all cartons.
abbrev pub row_total : Name → List CartonRow → ℕ
row_total x [] = 0
row_total x (r ∷ rs) = (if r.item == x then r.quantity else 0) + row_total x rs

abbrev pub packed : Name → List Carton → ℕ
packed x [] = 0
packed x (c ∷ cs) = row_total x c.rows + packed x cs

abbrev pub share : Name → Name → ℕ → ℕ
share x item k = if item == x then k else 0

add_row-total :
    (x item : Name) (k w v : ℕ) (rs : List CartonRow)
    → row_total x (add_row item k w v rs) ≡ row_total x rs + share x item k
unfolding add_row
add_row-total x item k w v [] = omega arith
add_row-total x item k w v (r ∷ rs) = elim (Bool-cases (r.item == item)) [
  | inl mine ↦ let same : r.item ≡ item = ground arith in rw mine (rw same (ground arith))
  | inr other ↦ rw other (omega (arith, add_row-total x item k w v rs))
]

packed-append : (x : Name) (cs ds : List Carton) → packed x (cs ++ ds) ≡ packed x cs + packed x ds
packed-append x [] ds = omega arith
packed-append x (c ∷ cs) ds = omega (arith, packed-append x cs ds)

-- A round that puts `k` of the item into the cartons.
abbrev Puts : Name → ℕ → List Carton → ℕ × List Carton → Type 0
Puts item qty cs (k, cs') =
    (1 ≤ k) × (k ≤ qty) × ((x : Name) → packed x cs' ≡ packed x cs + share x item k)

put_first-Puts :
    (item : Name) (qty w v : ℕ) (cs : List Carton) {put : ℕ × List Carton}
    → 1 ≤ qty
    → put_first item qty w v cs ≡ some put
    → Puts item qty cs put
unfolding put_first put_in
put_first-Puts item qty w v [] some_left found = cc found
put_first-Puts item qty w v (c ∷ cs) {put} some_left found =
    elim (Bool-cases (leb 1 (carton_fit w v c))) [
      | inl room ↦
          let k = chunk qty (carton_fit w v c) in
          let same : (k, put_in item k w v c ∷ cs) ≡ put = cc (rw room at found) in
          let (low, high) = chunk-bounds qty (carton_fit w v c) some_left (ground arith) in
          subst (Puts item qty (c ∷ cs)) same
            (low, high, λ x. omega (arith, add_row-total x item k w v c.rows))
      | inr full ↦ elim (Option-cases (put_first item qty w v cs)) [
        | inl nowhere ↦ cc (rw (full, nowhere) at found)
        | inr (later, there) ↦
            let same : (later.0, c ∷ later.1) ≡ put = cc (rw (full, there) at found) in
            let (low, high, total) = put_first-Puts item qty w v cs some_left there in
            subst (Puts item qty (c ∷ cs)) same (low, high, λ x. omega (arith, total x))
      ]
    ]

put_new-Puts :
    (types : List HuType) (item : Name) (qty w v : ℕ) (cs : List Carton)
    → 1 ≤ qty
    → is_empty (usable_types w v types) ≡ false
    → (put : ℕ × List Carton) × (put_new types item qty w v cs ≡ ok put) × Puts item qty cs put
unfolding put_new put_in
put_new-Puts types item qty w v cs some_left there =
    let (c, opens, takes) = open_carton-Takes types qty w v there in
    let k = chunk qty (carton_fit w v c) in
    let (low, high) = chunk-bounds qty (carton_fit w v c) some_left takes.0 in
    let total : (x : Name)
        → packed x (cs ++ put_in item k w v c ∷ []) ≡ packed x cs + share x item k =
      λ x. omega (
        arith,
        packed-append x cs (put_in item k w v c ∷ []),
        add_row-total x item k w v c.rows,
        ap (λ rs. row_total x rs) takes.1,
      ) in
    ((k, cs ++ put_in item k w v c ∷ []), rw opens refl, (low, high, total))

put_some-Puts :
    (types : List HuType) (item : Name) (qty w v : ℕ) (cs : List Carton)
    → 1 ≤ qty
    → is_empty (usable_types w v types) ≡ false
    → (put : ℕ × List Carton) × (put_some types item qty w v cs ≡ ok put) × Puts item qty cs put
unfolding put_some
put_some-Puts types item qty w v cs some_left there =
    elim (Option-cases (put_first item qty w v cs)) [
      | inl nowhere ↦ rw nowhere (put_new-Puts types item qty w v cs some_left there)
      | inr (put, found) ↦ (put, rw found refl, put_first-Puts item qty w v cs some_left found)
    ]

-- As many rounds as the quantity has millionths are enough.
pack_line-packs :
    (types : List HuType) (item : Name) (w v rounds qty : ℕ) (cs : List Carton)
    → qty ≤ rounds
    → is_empty (usable_types w v types) ≡ false
    → (cs' : List Carton) × (pack_line types item w v rounds qty cs ≡ ok cs')
      × ((x : Name) → packed x cs' ≡ packed x cs + share x item qty)
unfolding pack_line
pack_line-packs types item w v zero qty cs enough there =
    let nothing : qty ≡ 0 = omega arith in (cs, rw nothing refl, λ x. rw nothing (ground arith))
pack_line-packs types item w v (suc rounds) qty cs enough there = elim (Bool-cases (qty == 0)) [
  | inl nothing ↦
      let zero_left : qty ≡ 0 = ground arith in
      (cs, rw zero_left refl, λ x. rw zero_left (ground arith))
  | inr more ↦
      let (put, puts, good) = put_some-Puts types item qty w v cs (ground arith) there in
      let (cs', packs, rest) =
        pack_line-packs types item w v rounds (qty - put.0) put.1 (omega (arith, good.0, good.1))
          there in
      (cs', rw (more, puts) packs, λ x. ground (arith, rest x, good.2 x))
]

abbrev pub ordered : Name → List Line → ℕ
ordered x [] = 0
ordered x (l ∷ ls) = share x l.item l.quantity + ordered x ls

-- Where each line's unit fits at least one packaging type, packing ends with cartons that hold, of
-- each item, what they held before and all that the lines order.
pub pack_lines-packs :
    (types : List HuType) (ls : List Line) (cs : List Carton)
    → All (λ l. is_empty (usable_types l.weight l.volume types) ≡ false) ls
    → (cs' : List Carton) × (pack_lines types ls cs ≡ ok cs')
      × ((x : Name) → packed x cs' ≡ packed x cs + ordered x ls)
unfolding pack_lines
pack_lines-packs types [] cs h = (cs, refl, λ x. omega arith)
pack_lines-packs types (l ∷ ls) cs h =
    let (cs1, one, total1) =
      pack_line-packs types l.item l.weight l.volume l.quantity l.quantity cs (omega arith) h.0 in
    let (cs2, rest, total2) = pack_lines-packs types ls cs1 h.1 in
    (cs2, rw one rest, λ x. omega (arith, total1 x, total2 x))
