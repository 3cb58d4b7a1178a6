-- ===== src/Cartonization/Ends.antt =====
-- That the loop of frappe_wms/services/cartonization.py puts something into a carton in each round.
use frappe_ewm.Base.{
  All, All-keep, List, List-cases, Option-cases, [], ap, arith, false, inl, inr, is_empty, keep,
  keep-All, last?, leb, ok, refl, some, subst, true, ℕ, ◌*◌, ◌∙◌, ◌∷◌, ◌≡◌, ◌≤◌,
}
use frappe_ewm.Cartonization.Plan.{
  carton_fit, chunk, open_carton, open_first, open_type, type_fit, unit, usable_types, whole_types,
}
use frappe_ewm.Cartonization.Types.{Carton, HuType}

pub chunk-bounds : (qty f : ℕ) → 1 ≤ qty → 1 ≤ f → (1 ≤ chunk qty f) × (chunk qty f ≤ qty)
chunk-bounds qty f some_left fits = (ground arith, ground arith)

last?-All {κ} :
    {A : Type 0} (P : A → Type κ) (xs : List A) {x : A} → All P xs → last? xs ≡ some x → P x
last?-All P [] h found = cc found
last?-All P (y ∷ ys) {x} h found = elim (Option-cases (last? ys)) [
  | inl end ↦ let same : y ≡ x = cc (rw end at found) in subst P same h.0
  | inr (z, more) ↦
      let same : z ≡ x = cc (rw more at found) in subst P same (last?-All P ys h.1 more)
]

last?-there : {A : Type 0} (x : A) (xs : List A) → (y : A) × (last? (x ∷ xs) ≡ some y)
last?-there x xs = elim (Option-cases (last? xs)) [
  | inl end ↦ (x, rw end refl)
  | inr (y, more) ↦ (y, rw more refl)
]

-- What a carton must offer to a unit.
abbrev pub Takes : ℕ → ℕ → Carton → Type 0
Takes w v c = (1 ≤ carton_fit w v c) × (c.rows ≡ [])

open_type-Takes : (w v : ℕ) (t : HuType) → leb 1 (type_fit w v t) ≡ true → Takes w v (open_type t)
unfolding type_fit
open_type-Takes w v t h = (ground arith, refl)

-- When some packaging takes a unit, a carton is opened that takes one.
pub open_carton-Takes :
    (types : List HuType) (qty w v : ℕ)
    → is_empty (usable_types w v types) ≡ false
    → (c : Carton) × (open_carton types qty w v ≡ ok c) × Takes w v c
unfolding open_carton open_first whole_types usable_types
open_carton-Takes types qty w v there =
    let usable = keep (λ t. leb 1 (type_fit w v t)) types in
    let good : All (λ t. leb 1 (type_fit w v t) ≡ true) usable =
      keep-All (λ t. leb 1 (type_fit w v t)) types in
    let whole = keep (λ t. leb qty (type_fit w v t * unit)) usable in
    elim (List-cases whole) [
      | inr (t, ts, found) ↦
          let all_good : All (λ t. leb 1 (type_fit w v t) ≡ true) (t ∷ ts) =
            subst (λ l. All (λ t. leb 1 (type_fit w v t) ≡ true) l) found
              (All-keep (λ t. leb 1 (type_fit w v t) ≡ true) (λ t. leb qty (type_fit w v t * unit))
                usable good) in
          (open_type t, rw found refl, open_type-Takes w v t all_good.0)
      | inl none_whole ↦ elim (List-cases usable) [
        | inl nothing ↦ cc (rw nothing at there)
        | inr (t, ts, some_usable) ↦
            let (y, last) = last?-there t ts in
            let is_last : last? usable ≡ some y = ap (λ l. last? l) some_usable ∙ last in
            (
              open_type y,
              rw (none_whole, is_last) refl,
              open_type-Takes w v y
                  (last?-All (λ t. leb 1 (type_fit w v t) ≡ true) usable good is_last),
            )
      ]
    ]
