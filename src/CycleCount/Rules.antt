-- ===== src/CycleCount/Rules.antt =====
-- The generators of frappe_wms/services/cycle_count.py. Days are numbers.
use frappe_ewm.Base.{
  Bool, List, Name, Option, [], any, contains, eqb_ℤ, false, find, if◌then◌else◌, is_set, keep, leb,
  length, ltb_ℤ, map, none, not, pos, some, true, ℕ, ℤ, ◌&&◌, ◌++◌, ◌+◌, ◌==◌, ◌||◌, ◌∷◌,
}
use frappe_ewm.CycleCount.Types.{
  Count, CountRule, CountStatus, Counts, Procedure, Session, StockRule, abc_cycle_count, annual,
  bin_check, cancelled, counted, counting, draft, low_stock, other_procedure, posted, putaway_pi,
  under_review, zero_stock,
}
use frappe_ewm.Stock.Types.{Balance}

-- What a count covers: a product, a bin, or the warehouse when both are blank.
pub record Scope : Type 0 where
  pub product : Name
  pub storage_bin : Name

unfoldable pub covers : ℕ → Name → ℕ → Scope → Count → Bool
covers today warehouse frequency_days scope c =
    (c.warehouse == warehouse)
    && leb today (c.count_date + frequency_days)
    && (c.product == scope.product)
    && (c.storage_bin == scope.storage_bin)

-- `_scope_recently_covered`
unfoldable pub scope_recently_covered : Session → CountRule → Scope → Counts → Bool
scope_recently_covered s rule scope = any (covers s.today rule.warehouse rule.frequency_days scope)

unfoldable pub new_count : Session → Name → Scope → ℕ → Count
new_count s warehouse scope number = record {
  name = s.count_name number;
  warehouse = warehouse;
  product = scope.product;
  storage_bin = scope.storage_bin;
  count_date = s.today;
  status = draft;
}

-- `_create_count`
unfoldable pub create_count : Session → Name → Scope → Counts → Name × Counts
create_count s warehouse scope counts =
    let c = new_count s warehouse scope (length counts) in (c.name, counts ++ c ∷ [])

abbrev pub is_open_count : CountStatus → Bool
is_open_count draft = true
is_open_count counting = true
is_open_count counted = true
is_open_count under_review = true
is_open_count posted = false
is_open_count cancelled = false

-- `request_zero_stock_check`
unfoldable pub request_zero_stock_check : Session → Name → Name → Counts → Option Name × Counts
request_zero_stock_check s warehouse bin counts =
    if any (λ c. (c.warehouse == warehouse) && (c.storage_bin == bin) && is_open_count c.status)
      counts
    then (none, counts)
    else (let (name, counts') =
          create_count s warehouse (record { product = 0; storage_bin = bin }) counts in
        (some name, counts'))

-- The loop that every generator has: a scope that a recent count covers is passed over.
unfoldable pub generate : Session → CountRule → List Scope → Counts → List Name × Counts
generate s rule [] counts = ([], counts)
generate s rule (x ∷ xs) counts =
    if scope_recently_covered s rule x counts
    then generate s rule xs counts
    else (let (name, counts1) = create_count s rule.warehouse x counts in
        let (names, counts2) = generate s rule xs counts1 in (name ∷ names, counts2))

abbrev bin_scope : Name → Scope
bin_scope bin = record { product = 0; storage_bin = bin }

abbrev product_scope : Name → Scope
product_scope item = record { product = item; storage_bin = 0 }

-- `{b for b in bins if b}`, in the order of first appearance.
unfoldable pub distinct_bins : List Name → List Name
distinct_bins [] = []
distinct_bins (n ∷ ns) =
    let rest = distinct_bins ns in if is_set n && not (contains n rest) then n ∷ rest else rest

-- The items that `_generate_abc_counts` goes through.
unfoldable pub abc_scopes : Session → CountRule → List Scope
abc_scopes s rule =
    if is_set rule.abc_indicator
    then map (λ p. product_scope p.item)
        (keep (λ p. (p.abc_indicator == rule.abc_indicator) && p.warehouse_managed && p.active)
          s.products)
    else []

abbrev held_by : Option Balance → ℤ
held_by none = pos 0
held_by (some b) = b.quantity

-- The quantity of the first balance row of the rule's bin, as `get_value` finds it.
unfoldable pub rule_stock : StockRule → Name → List Balance → ℤ
rule_stock r warehouse balances = held_by (
    find
      (λ b.
        (b.place.warehouse == warehouse)
        && (b.place.product == r.product)
        && (b.place.storage_bin == r.storage_bin)
        && (b.place.stock_type == r.stock_type))
      balances)

-- The bins of `_generate_low_stock_counts`.
unfoldable pub low_stock_scopes : Session → CountRule → List Scope
low_stock_scopes s rule =
    map (λ r. bin_scope r.storage_bin)
      (keep
        (λ r.
          (r.warehouse == rule.warehouse)
          && r.active
          && ltb_ℤ (rule_stock r rule.warehouse s.balances) r.minimum_quantity)
        s.stock_rules)

unfoldable pub is_in_type : Session → CountRule → Name → Bool
is_in_type s rule n =
    not (is_set rule.storage_type)
    || any
        (λ b.
          (b.warehouse == rule.warehouse) && (b.storage_type == rule.storage_type) && (b.name == n))
        s.bins

-- The bins of `_generate_zero_stock_counts`.
unfoldable pub zero_stock_scopes : Session → CountRule → List Scope
zero_stock_scopes s rule = map bin_scope (
    distinct_bins (
      map (λ b. b.place.storage_bin)
        (keep
          (λ b.
            (b.place.warehouse == rule.warehouse)
            && eqb_ℤ b.quantity (pos 0)
            && is_in_type s rule b.place.storage_bin)
          s.balances)))

-- The movement type "201" of a putaway.
abbrev pub putaway_movement : Name
putaway_movement = 201

-- The bins of `_generate_putaway_pi_counts`.
unfoldable pub putaway_scopes : Session → CountRule → List Scope
putaway_scopes s rule = map bin_scope (
    keep (is_in_type s rule) (
      distinct_bins (
        map (λ l. l.posted.place.storage_bin)
          (keep
            (λ l.
              (l.posted.place.warehouse == rule.warehouse)
              && (l.posted.movement_type == putaway_movement)
              && leb s.today (s.day_of l.posting_datetime + rule.frequency_days))
            s.ledger))))

-- The bins of `_generate_bin_check_counts`.
unfoldable pub bin_check_scopes : Session → CountRule → List Scope
bin_check_scopes s rule =
    if is_set rule.storage_type
    then map (λ b. bin_scope b.name)
        (keep
          (λ b.
            (b.warehouse == rule.warehouse) && (b.storage_type == rule.storage_type) && b.active)
          s.bins)
    else []

-- `_GENERATORS`: what each procedure goes through.
unfoldable pub scopes_of : Session → CountRule → Procedure → List Scope
scopes_of s rule abc_cycle_count = abc_scopes s rule
scopes_of s rule low_stock = low_stock_scopes s rule
scopes_of s rule zero_stock = zero_stock_scopes s rule
scopes_of s rule putaway_pi = putaway_scopes s rule
scopes_of s rule bin_check = bin_check_scopes s rule
scopes_of s rule annual = record { product = 0; storage_bin = 0 } ∷ []
scopes_of s rule other_procedure = []

unfoldable pub generate_rules : Session → List CountRule → Counts → List Name × Counts
generate_rules s [] counts = ([], counts)
generate_rules s (r ∷ rs) counts =
    let (names, counts1) = generate s r (scopes_of s r r.procedure_type) counts in
    let (more, counts2) = generate_rules s rs counts1 in (names ++ more, counts2)

-- `generate_scheduled_counts`
unfoldable pub generate_scheduled_counts : Session → Counts → List Name × Counts
generate_scheduled_counts s counts = generate_rules s (keep (λ r. r.active) s.rules) counts
