-- ===== src/Removal/Dates.antt =====
-- When the comparisons of frappe_wms/services/removal_rules.py raise an error.
use frappe_ewm.Base.{
  All, All-sorted, Bool, Bool-cases, Has, List, Result, [], arith, err, false, inl, inr,
  insert_sorted, is_empty, is_some, not, ok, refl, sorted, sym, true, ◌∙◌, ◌∷◌, ◌≡◌, ◌⊎◌,
}
use frappe_ewm.Removal.{RemovalError, fifo_before, fifo_less, insert_by, sorted_by, type_error}
use frappe_ewm.Stock.Types.{Balance}

abbrev pub is_dated : Balance → Bool
is_dated b = is_some b.first_receipt_date

-- Rows that all have a receipt date, or all have none.
abbrev pub Alike : Bool → List Balance → Type 0
Alike k = All (λ b. is_dated b ≡ k)

pub Alike-cases :
    (bs : List Balance)
    → ((k : Bool) × Alike k bs)
      ⊎ (Has (λ b. is_dated b ≡ true) bs × Has (λ b. is_dated b ≡ false) bs)
Alike-cases [] = inl (true, tt)
Alike-cases (b ∷ bs) = elim (Alike-cases bs) [
  | inr mixed ↦ inr (inr mixed.0, inr mixed.1)
  | inl (k, alike) ↦ add_first k bs alike
]
  where
    first_of : (k : Bool) → List Balance → Type 0
    first_of k xs = Has (λ b. is_dated b ≡ k) xs

    add_first :
        (k : Bool) (xs : List Balance)
        → Alike k xs
        → ((j : Bool) × Alike j (b ∷ xs)) ⊎ (first_of true (b ∷ xs) × first_of false (b ∷ xs))
    add_first k [] alike = inl (is_dated b, (refl, tt))
    add_first true (x ∷ xs) alike = elim (Bool-cases (is_dated b)) [
      | inl dated ↦ inl (true, (dated, alike))
      | inr undated ↦ inr (inr (inl alike.0), inl undated)
    ]
    add_first false (x ∷ xs) alike = elim (Bool-cases (is_dated b)) [
      | inl dated ↦ inr (inl dated, inr (inl alike.0))
      | inr undated ↦ inl (false, (undated, alike))
    ]

pub fifo_before-alike :
    (k : Bool) (a b : Balance)
    → is_dated a ≡ k
    → is_dated b ≡ k
    → fifo_before a b ≡ ok (fifo_less a b)
fifo_before-alike k a b p q = ground arith

pub fifo_before-mixed :
    (k : Bool) (a b : Balance)
    → is_dated a ≡ k
    → is_dated b ≡ not k
    → fifo_before a b ≡ err type_error
fifo_before-mixed k a b p q = ground arith

no_other : (k : Bool) (xs : List Balance) → Alike k xs → Has (λ b. is_dated b ≡ not k) xs → ⊥
no_other k [] alike found = found
no_other k (x ∷ xs) alike (inl here) = differ k (sym alike.0 ∙ here)
  where
    differ : (j : Bool) → j ≡ not j → ⊥
    differ true h = cc h
    differ false h = cc h
no_other k (x ∷ xs) alike (inr there) = no_other k xs alike.1 there

Has-filled : (P : Balance → Type 0) (xs : List Balance) → Has P xs → is_empty xs ≡ false
Has-filled P [] found = elim found [ ]
Has-filled P (x ∷ xs) found = refl

-- What does not fit rows that are alike is the row before them.
first_differs :
    (k : Bool) (x : Balance) (xs : List Balance)
    → Alike k xs
    → Has (λ b. is_dated b ≡ true) (x ∷ xs)
    → Has (λ b. is_dated b ≡ false) (x ∷ xs)
    → (is_dated x ≡ not k) × (is_empty xs ≡ false)
first_differs true x xs alike dated (inr there) = absurd (no_other true xs alike there)
first_differs true x xs alike (inl here) (inl other) = cc (here, other)
first_differs true x xs alike (inr there) (inl other) = (other, Has-filled _ xs there)
first_differs false x xs alike (inr there) undated = absurd (no_other false xs alike there)
first_differs false x xs alike (inl here) (inl other) = cc (here, other)
first_differs false x xs alike (inl here) (inr there) = (here, Has-filled _ xs there)

insert_sorted_filled :
    (less : Balance → Balance → Bool) (x : Balance) (ys : List Balance)
    → is_empty (insert_sorted less x ys) ≡ false
insert_sorted_filled less x [] = refl
insert_sorted_filled less x (y ∷ ys) = elim (Bool-cases (less y x)) [
  | inl goes_on ↦ rw goes_on refl
  | inr stops ↦ rw stops refl
]

sorted_filled :
    (less : Balance → Balance → Bool) (xs : List Balance)
    → is_empty xs ≡ false
    → is_empty (sorted less xs) ≡ false
unfolding sorted
sorted_filled less [] filled = cc filled
sorted_filled less (x ∷ xs) filled = insert_sorted_filled less x (sorted less xs)

module _ (before : Balance → Balance → Result RemovalError Bool) (less : Balance → Balance → Bool)
    (alike_ok : (k : Bool) (a b : Balance)
      → is_dated a ≡ k
      → is_dated b ≡ k
      → before a b ≡ ok (less a b)) where
  insert_by-Alike :
      (k : Bool) (x : Balance) (ys : List Balance)
      → is_dated x ≡ k
      → Alike k ys
      → insert_by before x ys ≡ ok (insert_sorted less x ys)
  unfolding insert_by
  insert_by-Alike k x [] p alike = refl
  insert_by-Alike k x (y ∷ ys) p alike =
      let later = insert_by-Alike k x ys p alike.1 in
      let first = alike_ok k y x alike.0 p in
      elim (Bool-cases (less y x)) [
        | inl goes_on ↦ rw (first, later, goes_on) refl
        | inr stops ↦ rw (first, stops) refl
      ]

  pub sorted_by-Alike :
      (k : Bool) (xs : List Balance) → Alike k xs → sorted_by before xs ≡ ok (sorted less xs)
  unfolding sorted_by sorted
  sorted_by-Alike k [] alike = refl
  sorted_by-Alike k (x ∷ xs) alike = rw (sorted_by-Alike k xs alike.1) (
      insert_by-Alike k x (sorted less xs) alike.0
        (All-sorted less (λ b. is_dated b ≡ k) xs alike.1))

  module _
      (mixed_fails : (k : Bool) (a b : Balance)
        → is_dated a ≡ k
        → is_dated b ≡ not k
        → before a b ≡ err type_error) where
    insert_by-mixed :
        (k : Bool) (x : Balance) (ys : List Balance)
        → is_dated x ≡ not k
        → Alike k ys
        → is_empty ys ≡ false
        → insert_by before x ys ≡ err type_error
    unfolding insert_by
    insert_by-mixed k x [] p alike filled = cc filled
    insert_by-mixed k x (y ∷ ys) p alike filled = rw (mixed_fails k y x alike.0 p) refl

    pub sorted_by-mixed :
        (xs : List Balance)
        → Has (λ b. is_dated b ≡ true) xs
        → Has (λ b. is_dated b ≡ false) xs
        → sorted_by before xs ≡ err type_error
    unfolding sorted_by
    sorted_by-mixed [] dated undated = elim dated [ ]
    sorted_by-mixed (x ∷ xs) dated undated = elim (Alike-cases xs) [
      | inr both ↦ rw (sorted_by-mixed xs both.0 both.1) refl
      | inl (k, alike) ↦
          let (differs, filled) = first_differs k x xs alike dated undated in
          rw (sorted_by-Alike k xs alike) (
            insert_by-mixed k x (sorted less xs) differs
              (All-sorted less (λ b. is_dated b ≡ k) xs alike) (sorted_filled less xs filled))
    ]

    pub sorted_by-sorted :
        (xs : List Balance) {out : List Balance}
        → sorted_by before xs ≡ ok out
        → sorted less xs ≡ out
    sorted_by-sorted xs {out} goes = elim (Alike-cases xs) [
      | inl (k, alike) ↦ cc (sorted_by-Alike k xs alike, goes)
      | inr both ↦ cc (sorted_by-mixed xs both.0 both.1, goes)
    ]
