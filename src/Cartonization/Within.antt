-- ===== src/Cartonization/Within.antt =====
-- Thathe plan of frappe_wms/services/cartonization.py keeps to the limits of the packagings.
use frappe_ewm.Base.{
  >>=-eq-ok, All, Bool, Bool-cases, Has, Has-keep, Has-map, List, List-cases, Name, Option-cases,
  [], all, any, ap, arith, inl, inr, is_empty, keep, last?, leb, ltb, not, ok, refl, some, sorted,
  subst, suc, sym, throw_if-eq-ok, true, zero, ℕ, ◌*◌, ◌++◌, ◌-◌, ◌==◌, ◌>>=◌, ◌||◌, ◌∙◌, ◌∷◌, ◌≡◌,
}
use frappe_ewm.Cartonization.Plan.{
  Line, bigger, carton_fit, chunk, is_finished, limit, lines_of, open_carton, open_first, open_type,
  pack_line, pack_lines, plan_cartons, planned_hus_of, put_first, put_in, put_new, put_some,
  type_fit, unit, usable_types, whole_types,
}
use frappe_ewm.Cartonization.Rooms.{
  Filled, FillsType, IsWithin, put_first-IsWithin, put_in-IsWithin,
}
use frappe_ewm.Cartonization.Types.{
  Carton, Delivery, HuType, Session, already_packed, no_types, not_open, not_permitted,
}

limit-Filled : (m : ℕ) → Filled m (limit m) 0
limit-Filled m = elim (Bool-cases (m == 0)) [
  | inl no_limit ↦ let e : m ≡ 0 = ground arith in rw e (inl (refl, refl))
  | inr limits ↦ rw limits (inr (m, refl, omega arith))
]

open_type-IsWithin :
    (types : List HuType) (y : HuType) → Has (λ t. t ≡ y) types → IsWithin types (open_type y)
open_type-IsWithin types y there =
    Has-map (λ t. t ≡ y) (FillsType (open_type y)) types
      (λ t same.
        subst (FillsType (open_type y)) (sym same)
          (refl, limit-Filled y.maximum_weight, limit-Filled y.maximum_volume))
      there

last?-Has : {A : Type 0} (xs : List A) {y : A} → last? xs ≡ some y → Has (λ x. x ≡ y) xs
last?-Has [] found = cc found
last?-Has (x ∷ xs) {y} found = elim (Option-cases (last? xs)) [
  | inl end ↦ inl (cc (rw end at found))
  | inr (z, more) ↦
      let same : z ≡ y = cc (rw more at found) in inr (last?-Has xs (more ∙ ap (λ a. some a) same))
]

kept :
    {A : Type 0} (p : A → Bool) (xs : List A) (y : A)
    → Has (λ x. x ≡ y) (keep p xs)
    → Has (λ x. x ≡ y) xs
kept p xs y there =
    Has-map (λ x. (x ≡ y) × (p x ≡ true)) (λ x. x ≡ y) xs (λ x h. h.0)
      (Has-keep (λ x. x ≡ y) p xs there)

open_carton-IsWithin :
    (types : List HuType) (qty w v : ℕ) {c : Carton}
    → open_carton types qty w v ≡ ok c
    → IsWithin types c
unfolding open_carton open_first whole_types usable_types
open_carton-IsWithin types qty w v {c} opens =
    let usable = keep (λ t. leb 1 (type_fit w v t)) types in
    let whole = keep (λ t. leb qty (type_fit w v t * unit)) usable in
    elim (List-cases whole) [
      | inr (t, ts, found) ↦
          let same : open_type t ≡ c = cc (rw found at opens) in
          let first : Has (λ x. x ≡ t) (t ∷ ts) = inl refl in
          subst (IsWithin types) same (
            open_type-IsWithin types t (
              kept (λ t. leb 1 (type_fit w v t)) types t
                (kept (λ t. leb qty (type_fit w v t * unit)) usable t
                  (subst (Has (λ x. x ≡ t)) (sym found) first))))
      | inl none_whole ↦ elim (Option-cases (last? usable)) [
        | inl nothing ↦ cc (rw (none_whole, nothing) at opens)
        | inr (t, is_last) ↦
            let same : open_type t ≡ c = cc (rw (none_whole, is_last) at opens) in
            subst (IsWithin types) same (
              open_type-IsWithin types t
                (kept (λ t. leb 1 (type_fit w v t)) types t (last?-Has usable is_last)))
      ]
    ]

All-append {κ} :
    {A : Type 0} (P : A → Type κ) (xs : List A) (y : A) → All P xs → P y → All P (xs ++ y ∷ [])
All-append P [] y h p = (p, tt)
All-append P (x ∷ xs) y h p = (h.0, All-append P xs y h.1 p)

put_some-IsWithin :
    (types : List HuType) (item : Name) (qty w v : ℕ) (cs : List Carton) {put : ℕ × List Carton}
    → All (IsWithin types) cs
    → put_some types item qty w v cs ≡ ok put
    → All (IsWithin types) put.1
unfolding put_some put_new
put_some-IsWithin types item qty w v cs {put} all puts =
    elim (Option-cases (put_first item qty w v cs)) [
      | inr (found, there) ↦
          let same : found ≡ put = cc (rw there at puts) in
          subst (λ p. All (IsWithin types) p.1) same
            (put_first-IsWithin types item qty w v cs all there)
      | inl nowhere ↦
          let (c, opens, ends) =
            >>=-eq-ok (open_carton types qty w v)
              (λ c. ok (
                chunk qty (carton_fit w v c),
                cs ++ put_in item (chunk qty (carton_fit w v c)) w v c ∷ [],
              ))
              {b = put} (rw nowhere at puts) in
          let new = put_in item (chunk qty (carton_fit w v c)) w v c in
          let same : (chunk qty (carton_fit w v c), cs ++ new ∷ []) ≡ put = cc ends in
          subst (λ p. All (IsWithin types) p.1) same
            (All-append (IsWithin types) cs new all
              (put_in-IsWithin types item qty w v c (open_carton-IsWithin types qty w v opens)))
    ]

pack_line-IsWithin :
    (types : List HuType) (item : Name) (w v rounds qty : ℕ) (cs : List Carton) {out : List Carton}
    → All (IsWithin types) cs
    → pack_line types item w v rounds qty cs ≡ ok out
    → All (IsWithin types) out
unfolding pack_line
pack_line-IsWithin types item w v zero qty cs {out} all packs = elim (Bool-cases (qty == 0)) [
  | inl nothing ↦
      let same : cs ≡ out = cc (rw nothing at packs) in subst (All (IsWithin types)) same all
  | inr more ↦ cc (rw more at packs)
]
pack_line-IsWithin types item w v (suc rounds) qty cs {out} all packs =
    elim (Bool-cases (qty == 0)) [
      | inl nothing ↦
          let same : cs ≡ out = cc (rw nothing at packs) in subst (All (IsWithin types)) same all
      | inr more ↦
          let (put, puts, rest) =
            >>=-eq-ok (put_some types item qty w v cs)
              (λ put. pack_line types item w v rounds (qty - put.0) put.1) {b = out}
              (rw more at packs) in
          pack_line-IsWithin types item w v rounds (qty - put.0) put.1
            (put_some-IsWithin types item qty w v cs all puts) rest
    ]

pack_lines-IsWithin :
    (types : List HuType) (ls : List Line) (cs : List Carton) {out : List Carton}
    → All (IsWithin types) cs
    → pack_lines types ls cs ≡ ok out
    → All (IsWithin types) out
unfolding pack_lines
pack_lines-IsWithin types [] cs {out} all packs =
    let same : cs ≡ out = cc packs in subst (All (IsWithin types)) same all
pack_lines-IsWithin types (l ∷ ls) cs {out} all packs =
    let (cs1, one, rest) =
      >>=-eq-ok (pack_line types l.item l.weight l.volume l.quantity l.quantity cs)
        (λ c. pack_lines types ls c) {b = out} packs in
    pack_lines-IsWithin types ls cs1
      (pack_line-IsWithin types l.item l.weight l.volume l.quantity l.quantity cs all one) rest

-- Every carton of a plan is of one of the packaging types, and what is in it with the room that is
-- left makes up that type's weight limit and its volume limit, where it has them.
pub plan_cartons-IsWithin :
    (s : Session) (d : Delivery) {out : List Carton × Delivery}
    → plan_cartons s d ≡ ok out
    → All (IsWithin s.types) out.0
unfolding plan_cartons
plan_cartons-IsWithin s d {out} goes =
    let (_, g1) = throw_if-eq-ok (not s.has_role) not_permitted _ {b = out} goes in
    let (_, g2) =
      throw_if-eq-ok (not (d.docstatus == 1) || (d.closed_short || is_finished d.status)) not_open _
        {b = out} g1 in
    let (_, g3) =
      throw_if-eq-ok (any (λ i. ltb 0 i.packed_quantity) d.items || s.has_hu d.name) already_packed
        _ {b = out} g2 in
    let (_, g4) = throw_if-eq-ok (is_empty s.types) no_types _ {b = out} g3 in
    let (lines, _, g5) =
      >>=-eq-ok (lines_of s d.items)
        (λ ls. pack_lines s.types (sorted bigger ls) [] >>= λ cs.
          ok (cs, record d { planned_hus = planned_hus_of 1 cs }))
        {b = out} g4 in
    let (cs, packs, ends) =
      >>=-eq-ok (pack_lines s.types (sorted bigger lines) [])
        (λ cs. ok (cs, record d { planned_hus = planned_hus_of 1 cs })) {b = out} g5 in
    let same : (cs, record d { planned_hus = planned_hus_of 1 cs }) ≡ out = cc ends in
    subst (λ o. All (IsWithin s.types) o.0) same
      (pack_lines-IsWithin s.types (sorted bigger lines) [] tt packs)
