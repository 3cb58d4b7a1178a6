-- ===== src/Determination/Chosen.antt =====
-- Which rule determines the process type, in frappe_wms/services/determination.py.
use frappe_ewm.Base.{
  All, Bool, Bool-cases, List, [], arith, false, find, find-first, inl, inr, none, refl, some, true,
  ◌++◌, ◌∷◌, ◌≡◌, ◌⊎◌,
}
use frappe_ewm.Determination.Rules.{Asked, determine_process_type, type_rule_fits}
use frappe_ewm.Determination.Types.{Session, TypeRule}

-- Nothing passes, or something is found.
find-cases {ℓ} :
    {A : Type ℓ} (p : A → Bool) (xs : List A)
    → ((find p xs ≡ none) × All (λ y. p y ≡ false) xs) ⊎ ((x : A) × (find p xs ≡ some x))
find-cases p [] = inl (refl, tt)
find-cases p (y ∷ xs) = elim (Bool-cases (p y)) [
  | inl here ↦ inr (y, ground arith)
  | inr not_here ↦ elim (find-cases p xs) [
    | inl h ↦ inl (rw not_here h.0, (not_here, h.1))
    | inr h ↦ inr (h.0, rw not_here h.1)
  ]
]

-- The process type is that of the first rule that fits, or the default where none does.
determine_process_type-first :
    (s : Session) (a : Asked)
    → ((determine_process_type s a ≡ a.default)
        × All (λ q. type_rule_fits s a q ≡ false) s.type_rules)
      ⊎ ((before : List TypeRule) × (r : TypeRule) × (after : List TypeRule) × (s.type_rules
            ≡ before ++ r ∷ after)
          × (type_rule_fits s a r ≡ true)
          × All (λ q. type_rule_fits s a q ≡ false) before
          × (determine_process_type s a ≡ r.process_type))
unfolding determine_process_type
determine_process_type-first s a = elim (find-cases (type_rule_fits s a) s.type_rules) [
  | inl h ↦ inl (ground arith, h.1)
  | inr h ↦
      let (before, after, split, fits_it, none_before) =
        find-first (type_rule_fits s a) s.type_rules h.1 in
      inr (before, h.0, after, split, fits_it, none_before, ground arith)
]
