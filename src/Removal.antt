-- ===== src/Removal.antt =====
-- frappe_wms/services/removal_rules.py: the order in which stock is taken from a warehouse.
pub mod Dates
pub mod Order
pub mod Rules
use frappe_ewm.Base.{
  Bool, List, Name, Option, Result, [], err, false, find, if◌then◌else◌, is_empty, is_set, keep,
  last?, ltb, ltb_ℤ, none, not, ok, some, sorted, true, ℕ, ◌&&◌, ◌==◌, ◌>>=◌, ◌||◌, ◌∷◌,
}
use frappe_ewm.Stock.Types.{Balance}

pub data RemovalError : Type 0 where
  unknown_strategy fixed_bin_required type_error : RemovalError

abbrev pub date_less : Option ℕ → Option ℕ → Bool
date_less none none = false
date_less none (some e) = true
date_less (some d) none = false
date_less (some d) (some e) = ltb d e

abbrev pub date_eq : Option ℕ → Option ℕ → Bool
date_eq none none = true
date_eq none (some e) = false
date_eq (some d) none = false
date_eq (some d) (some e) = d == e

-- `(b.first_receipt_date or "", b.name)`
abbrev pub fifo_less : Balance → Balance → Bool
fifo_less a b =
    date_less a.first_receipt_date b.first_receipt_date
    || (date_eq a.first_receipt_date b.first_receipt_date && ltb a.name b.name)

abbrev pub Strategy : Type 0
Strategy = List Balance → Result RemovalError (List Balance)

-- `<` on the keys `(b.first_receipt_date or "", b.name)`, with `names` for the names: the key of a row
-- with no date starts with a text, and Python refuses to order a text and a date.
abbrev pub date_before : Bool → Option ℕ → Option ℕ → Result RemovalError Bool
date_before names none none = ok names
date_before names none (some e) = err type_error
date_before names (some d) none = err type_error
date_before names (some d) (some e) = ok (ltb d e || ((d == e) && names))

abbrev pub fifo_before : Balance → Balance → Result RemovalError Bool
fifo_before a b = date_before (ltb a.name b.name) a.first_receipt_date b.first_receipt_date

-- `sorted` by a comparison that may raise an error.
unfoldable pub insert_by :
    (Balance → Balance → Result RemovalError Bool)
    → Balance
    → List Balance
    → Result RemovalError (List Balance)
insert_by before x [] = ok (x ∷ [])
insert_by before x (y ∷ ys) =
    let rest = insert_by before x ys >>= λ zs. ok (y ∷ zs) in
    before y x >>= λ goes_on. if goes_on then rest else ok (x ∷ y ∷ ys)

unfoldable pub sorted_by :
    (Balance → Balance → Result RemovalError Bool)
    → List Balance
    → Result RemovalError (List Balance)
sorted_by before [] = ok []
sorted_by before (x ∷ xs) = do rest ← sorted_by before xs; insert_by before x rest

unfoldable pub strategy_fifo : Strategy
strategy_fifo bs = sorted_by fifo_before bs

-- `reverse=True` keeps the order of equal items.
unfoldable pub strategy_lifo : Strategy
strategy_lifo bs = sorted_by (λ a b. fifo_before b a) bs

-- `(0, expiry) if expiry else (1, None)`
abbrev pub expiry_less : Balance → Balance → Bool
expiry_less a b = elim a.shelf_life_expiry_date [
  | none ↦ false
  | some d ↦ elim b.shelf_life_expiry_date [ none ↦ true | some e ↦ ltb d e ]
]

unfoldable pub strategy_fefo : Strategy
strategy_fefo bs = do base ← strategy_fifo bs; ok (sorted expiry_less base)

unfoldable pub strategy_stringent_fifo : Strategy
strategy_stringent_fifo bs = strategy_fifo bs

unfoldable pub strategy_partial_quantity_first : Strategy
strategy_partial_quantity_first bs = ok (sorted (λ a b. ltb_ℤ a.quantity b.quantity) bs)

unfoldable pub strategy_by_quantity : Strategy
strategy_by_quantity bs = ok (sorted (λ a b. ltb_ℤ b.quantity a.quantity) bs)

unfoldable pub strategy_fixed_bin : Name → Strategy
strategy_fixed_bin fixed_bin bs =
    if not (is_set fixed_bin)
    then err fixed_bin_required
    else ok (keep (λ b. b.place.storage_bin == fixed_bin) bs)

-- One row of a rule's `sort_fields`.
pub record SortField : Type 0 where
  pub field : Name
  pub descending : Bool

-- `(value is None, value if value is not None else "")`: rows with a value come first.
abbrev part_less : Option ℕ → Option ℕ → Bool
part_less none w = false
part_less (some v) none = true
part_less (some v) (some w) = ltb v w

-- The comparison of two `sort_key` tuples; `get` is `b.get(field)`.
unfoldable pub key_less : (Name → Balance → Option ℕ) → List SortField → Balance → Balance → Bool
key_less get [] a b = false
key_less get (f ∷ fs) a b =
    let rest = key_less get fs a b in
    let v = get f.field a in
    let w = get f.field b in
    let first = if f.descending then part_less w v else part_less v w in
    if date_eq v w then rest else first

unfoldable pub strategy_custom_sort : (Name → Balance → Option ℕ) → List SortField → Strategy
strategy_custom_sort get fields bs =
    if is_empty fields then ok bs else ok (sorted (key_less get fields) bs)

-- A strategy's name on the rule form; the registry holds the others.
pub data StrategyName : Type 0 where
  custom fixed_bin : StrategyName
  registered : Name → StrategyName

-- `frappe.get_hooks("wms_removal_strategies")`: the paths that apps registered for each name, in the
-- order in which the apps are loaded; a later one overrides. `get_attr` finds the function of a path.
unfoldable pub registered_path : Name → List (Name × List Name) → Option Name
registered_path n [] = none
registered_path n ((k, paths) ∷ hooks) = if k == n then last? paths else registered_path n hooks

unfoldable pub lookup_strategy :
    (Name → Strategy) → List (Name × List Name) → Name → Option Strategy
lookup_strategy get_attr hooks n = elim (registered_path n hooks) [
  | none ↦ none
  | some path ↦ some (get_attr path)
]

-- What a removal rule configures.
pub record Rule : Type 0 where
  pub strategy : StrategyName
  pub sort_fields : List SortField
  pub fixed_bin : Name
  pub custom_strategy : Name
  -- the conditions; a blank one holds of everything
  pub item : Name
  pub item_group : Name
  pub stock_type : Name

unfoldable pub run_strategy : Option Strategy → Strategy
run_strategy none bs = err unknown_strategy
run_strategy (some fn) bs = fn bs

-- `apply_strategy`, by the name of the rule's strategy.
unfoldable pub apply_named :
    (Name → Balance → Option ℕ) → (Name → Option Strategy) → Rule → StrategyName → Strategy
apply_named get registry rule custom bs = run_strategy (registry rule.custom_strategy) bs
apply_named get registry rule fixed_bin bs = strategy_fixed_bin rule.fixed_bin bs
apply_named get registry rule (registered n) bs =
    if not (is_empty rule.sort_fields)
    then strategy_custom_sort get rule.sort_fields bs
    else run_strategy (registry n) bs

unfoldable pub apply_strategy :
    (Name → Balance → Option ℕ) → (Name → Option Strategy) → Rule → Strategy
apply_strategy get registry rule = apply_named get registry rule rule.strategy

-- `not rule.get(key) or rule.get(key) == context.get(key)`
abbrev condition_holds : Name → Name → Bool
condition_holds want have = not (is_set want) || (want == have)

abbrev pub rule_applies : Name → Name → Name → Rule → Bool
rule_applies item item_group stock_type r =
    condition_holds r.item item
    && (condition_holds r.item_group item_group && condition_holds r.stock_type stock_type)

-- `match_removal_rule`, on the warehouse's active rules in the order of priority.
unfoldable pub match_removal_rule : Name → Name → Name → List Rule → Option Rule
match_removal_rule item item_group stock_type = find (rule_applies item item_group stock_type)
