-- ===== src/Removal/Rules.antt =====
-- Rules and strategies of frappe_wms/services/removal_rules.py: which rule applies, and that no
-- strategy brings in a row.
use frappe_ewm.Base.{
  All, All-keep, All-sorted, Bool-cases, List, Name, Option, Option-cases, [], arith, false,
  find-first, inl, inr, is_empty, keep, ok, some, sorted, true, ℕ, ◌++◌, ◌==◌, ◌∷◌, ◌≡◌,
}
use frappe_ewm.Removal.{
  Rule, SortField, Strategy, StrategyName, apply_named, apply_strategy, fifo_before, fifo_less,
  key_less, match_removal_rule, rule_applies, run_strategy, strategy_custom_sort, strategy_fifo,
  strategy_fixed_bin,
}
use frappe_ewm.Removal.Dates.{fifo_before-alike, fifo_before-mixed, sorted_by-sorted}
use frappe_ewm.Stock.Types.{Balance}

module _ (P : Balance → Type 0) where
  All-fifo :
      (bs : List Balance) {out : List Balance} → All P bs → strategy_fifo bs ≡ ok out → All P out
  unfolding strategy_fifo
  All-fifo bs {out} h e =
      let same =
        sorted_by-sorted fifo_before fifo_less fifo_before-alike fifo_before-mixed bs {out = out}
          e in
      rw (← same) (All-sorted fifo_less P bs h)

  All-fixed_bin :
      (bin : Name) (bs : List Balance) {out : List Balance}
      → All P bs
      → strategy_fixed_bin bin bs ≡ ok out
      → All P out
  unfolding strategy_fixed_bin
  All-fixed_bin bin bs {out} h e =
      let same : keep (λ (b : Balance). b.place.storage_bin == bin) bs ≡ out = ground arith in
      rw (← same) (All-keep P (λ b. b.place.storage_bin == bin) bs h)

  All-custom_sort :
      (get : Name → Balance → Option ℕ) (fields : List SortField) (bs : List Balance)
      {out : List Balance}
      → All P bs
      → strategy_custom_sort get fields bs ≡ ok out
      → All P out
  unfolding strategy_custom_sort
  All-custom_sort get [] bs {out} h e = let same : bs ≡ out = ground arith in rw (← same) h
  All-custom_sort get (f ∷ fs) bs {out} h e =
      let same : sorted (key_less get (f ∷ fs)) bs ≡ out = ground arith in
      rw (← same) (All-sorted (key_less get (f ∷ fs)) P bs h)

module _ (P : Balance → Type 0) (registry : Name → Option Strategy)
    (apps : (n : Name) (fn : Strategy) (l o : List Balance)
      → registry n ≡ some fn
      → fn l ≡ ok o
      → All P l
      → All P o) where
  All-run :
      (n : Name) (bs : List Balance) {out : List Balance}
      → All P bs
      → run_strategy (registry n) bs ≡ ok out
      → All P out
  unfolding run_strategy
  All-run n bs {out} h e = elim (Option-cases (registry n)) [
    | inl unknown ↦ cc (rw unknown at e)
    | inr (fn, known) ↦ apps n fn bs out known (rw known at e) h
  ]

  All-named :
      (get : Name → Balance → Option ℕ) (rule : Rule) (s : StrategyName) (bs : List Balance)
      {out : List Balance}
      → All P bs
      → apply_named get registry rule s bs ≡ ok out
      → All P out
  unfolding apply_named
  All-named get rule StrategyName.custom bs h e = All-run rule.custom_strategy bs h e
  All-named get rule StrategyName.fixed_bin bs h e = All-fixed_bin P rule.fixed_bin bs h e
  All-named get rule (StrategyName.registered n) bs h e =
      elim (Bool-cases (is_empty rule.sort_fields)) [
        | inl no_fields ↦ All-run n bs h (rw no_fields at e)
        | inr fields ↦ All-custom_sort P get rule.sort_fields bs h (rw fields at e)
      ]

-- Whatever a removal rule configures, the rows that it returns are among the rows it was given, in
-- that what held of all of these holds of all of those, as long as this is so for the strategies
-- that the installed apps register.
apply_strategy-All :
    (P : Balance → Type 0) (get : Name → Balance → Option ℕ) (registry : Name → Option Strategy)
    (rule : Rule) (bs : List Balance) {out : List Balance}
    → ((n : Name) (fn : Strategy) (l o : List Balance)
        → registry n ≡ some fn
        → fn l ≡ ok o
        → All P l
        → All P o)
    → All P bs
    → apply_strategy get registry rule bs ≡ ok out
    → All P out
unfolding apply_strategy
apply_strategy-All P get registry rule bs apps h e =
    All-named P registry apps get rule rule.strategy bs h e

-- The rule that is chosen applies, and no rule before it in the order of priority does.
match_removal_rule-first :
    (item item_group stock_type : Name) (rules : List Rule) {r : Rule}
    → match_removal_rule item item_group stock_type rules ≡ some r
    → (before : List Rule) × (after : List Rule) × (rules ≡ before ++ r ∷ after)
      × (rule_applies item item_group stock_type r ≡ true)
      × All (λ q. rule_applies item item_group stock_type q ≡ false) before
unfolding match_removal_rule
match_removal_rule-first item item_group stock_type rules h =
    find-first (rule_applies item item_group stock_type) rules h
