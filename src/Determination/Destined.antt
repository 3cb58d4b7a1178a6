-- ===== src/Determination/Destined.antt =====
-- Which bins `determine_destination_bin` of frappe_wms/services/determination.py returns.
use frappe_ewm.Base.{
  >>=-eq-ok, Bool-cases, Has, List, Name, Option-cases, [], ap, inl, inr, is_empty, is_set, none,
  ok, some, true, ◌∙◌, ◌∷◌, ◌≡◌, ◌⊎◌,
}
use frappe_ewm.Determination.Allowed.{
  IsPlace, Selects, apply_bin_strategy-All, candidate_bins-IsPlace,
}
use frappe_ewm.Determination.Destination.{
  Search, bin_rule_fits, candidate_bins, carry_on, default_searches, determine_destination_bin,
  is_manual, or_no_bin, putaway_types, rule_searches, search_types, try_rules,
}
use frappe_ewm.Determination.Strategy.{Carry, apply_bin_strategy}
use frappe_ewm.Determination.Types.{BinRule, Context, Session}

module _ (s : Session) (c : Context) where
  search_types-IsPlace :
      (k : Carry) (qs : List Search) {n : Name}
      → Selects s
      → search_types s c k qs ≡ ok (some n)
      → IsPlace s c n
  unfolding search_types
  search_types-IsPlace k [] selects goes = cc
  search_types-IsPlace k (q ∷ qs) {n} selects goes =
      let bins = candidate_bins s c q.storage_type q.section q.group in
      let later = search_types-IsPlace k qs {n = n} selects in
      elim (Bool-cases (is_empty bins)) [
        | inl nowhere ↦ later (rw nowhere at goes)
        | inr some_bins ↦
            let (found, answers, ends) =
              >>=-eq-ok (apply_bin_strategy s c k q.strategy bins)
                (λ found. elim found [ none ↦ search_types s c k qs | some b ↦ ok (some b) ])
                {b = some n} (rw some_bins at goes) in
            elim (Option-cases found) [
              | inl nothing ↦ later (rw nothing at ends)
              | inr (b, chosen) ↦
                  let same : b ≡ n = cc (rw chosen at ends) in
                  apply_bin_strategy-All s c (IsPlace s c) k q.strategy bins {n = n} selects
                    (candidate_bins-IsPlace s c q.storage_type q.section q.group)
                    (answers ∙ ap ok (chosen ∙ ap some same))
            ]
      ]

  -- The bin that a rule fixes.
  abbrev pub IsFixed : List BinRule → Name → Type 0
  IsFixed rules n = Has (λ r. (bin_rule_fits c r ≡ true) × (r.fixed_destination_bin ≡ n)) rules

  try_rules-IsPlace :
      (k : Carry) (rules : List BinRule) {n : Name}
      → Selects s
      → try_rules s c k rules ≡ ok n
      → IsFixed rules n ⊎ IsPlace s c n
  unfolding try_rules
  try_rules-IsPlace k [] {n} selects goes =
      let (found, finds, ends) =
        >>=-eq-ok (search_types s c k (default_searches s c (putaway_types s c 0 0))) or_no_bin
          {b = n} goes in
      elim (Option-cases found) [
        | inl nothing ↦ cc (rw nothing at ends)
        | inr (b, chosen) ↦
            let same : b ≡ n = cc (rw chosen at ends) in
            inr (
              search_types-IsPlace k (default_searches s c (putaway_types s c 0 0)) {n = n} selects
                (finds ∙ ap ok (chosen ∙ ap some same)))
      ]
  try_rules-IsPlace k (r ∷ rs) {n} selects goes =
      let k' = carry_on s c r k in
      elim (Bool-cases (bin_rule_fits c r)) [
        | inr other ↦ elim (try_rules-IsPlace k rs {n = n} selects (rw other at goes)) [
          | inl fixed ↦ inl (inr fixed)
          | inr place ↦ inr place
        ]
        | inl fits_it ↦ elim (Bool-cases (is_set r.fixed_destination_bin)) [
          | inl fixed ↦
              let same : r.fixed_destination_bin ≡ n = cc (rw (fits_it, fixed) at goes) in
              inl (inl (fits_it, same))
          | inr loose ↦ elim (Bool-cases (is_manual r.strategy)) [
            | inl by_hand ↦ cc (rw (fits_it, loose, by_hand) at goes)
            | inr automatic ↦
                let (found, finds, ends) =
                  >>=-eq-ok (search_types s c k' (rule_searches s c r))
                    (λ found. elim found [ none ↦ try_rules s c k' rs | some b ↦ ok b ]) {b = n}
                    (rw (fits_it, loose, automatic) at goes) in
                elim (Option-cases found) [
                  | inl nothing ↦
                      elim (try_rules-IsPlace k' rs {n = n} selects (rw nothing at ends)) [
                        | inl fixed ↦ inl (inr fixed)
                        | inr place ↦ inr place
                      ]
                  | inr (b, chosen) ↦
                      let same : b ≡ n = cc (rw chosen at ends) in
                      inr (
                        search_types-IsPlace k' (rule_searches s c r) {n = n} selects
                          (finds ∙ ap ok (chosen ∙ ap some same)))
                ]
          ]
        ]
      ]

  -- Where the strategies of other apps return only bins that they were given, the destination that
  -- is determined is the bin that a fitting rule fixes, or a bin that is there in the warehouse,
  -- is active, is not blocked for putaway, is not the one to leave out, and violates no bin rule.
  pub determine_destination_bin-IsPlace :
      {n : Name}
      → Selects s
      → determine_destination_bin s c ≡ ok n
      → IsFixed s.bin_rules n ⊎ IsPlace s c n
  unfolding determine_destination_bin
  determine_destination_bin-IsPlace selects goes = try_rules-IsPlace _ s.bin_rules selects goes
