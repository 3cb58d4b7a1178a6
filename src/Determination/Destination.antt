-- ===== src/Determination/Destination.antt =====
-- `determine_destination_bin` of frappe_wms/services/determination.py.
use frappe_ewm.Base.{
  Bool, List, Name, Option, Result, [], err, false, if◌then◌else◌, is_empty, is_set, keep, map,
  none, not, ok, or_name, some, true, ◌&&◌, ◌==◌, ◌>>=◌, ◌||◌, ◌∷◌,
}
use frappe_ewm.Determination.Rules.{fits, search_sequence_for, search_sequence_types}
use frappe_ewm.Determination.Strategy.{Carry, apply_bin_strategy, or_list}
use frappe_ewm.Determination.Types.{
  Bin, BinRule, Context, DeterminationError, Session, Strategy, manual_bin, manual_selection,
  near_fixed_bin, no_bin,
}

abbrev section_of : Session → Name → Bin → Name
section_of s storage_type b =
    if is_set b.storage_section then s.indicator_of_section storage_type b.storage_section else 0

-- `_filter_by_section_indicator`
unfoldable pub filter_by_section : Session → Name → Name → List Bin → List Bin
filter_by_section s storage_type indicator bins =
    or_list (keep (λ b. is_set indicator && (section_of s storage_type b == indicator)) bins)
      (keep (λ b. not (is_set (section_of s storage_type b))) bins)

-- The bins of a storage type that the filters select.
unfoldable pub is_listed : Name → Name → Name → Name → Bin → Bool
is_listed warehouse storage_type section group b =
    (b.warehouse == warehouse)
    && (b.storage_type == storage_type)
    && b.active
    && not b.putaway_blocked
    && fits section b.storage_section
    && fits group b.storage_group

unfoldable pub is_usable : Session → Context → Bin → Bool
is_usable s c b =
    (not (is_set c.exclude_bin) || not (b.name == c.exclude_bin)) && not (s.has_violations c b.name)

-- `_candidate_bins_for_storage_type`
unfoldable pub candidate_bins : Session → Context → Name → Name → Name → List Bin
candidate_bins s c storage_type section group =
    if is_set c.item && s.over_type_quantity c storage_type
    then []
    else keep (is_usable s c) (
        filter_by_section s storage_type
          (if is_set c.item then s.section_indicator c.item c.warehouse else 0)
          (keep (is_listed c.warehouse storage_type section group) s.bins))

abbrev one_if_set : Name → List Name
one_if_set n = if is_set n then n ∷ [] else []

-- The product's own storage types.
unfoldable pub product_types : Session → Context → List Name
product_types s c =
    let sequence =
      search_sequence_for s c.warehouse (s.putaway_indicator c.item c.warehouse) c.stock_type in
    if not (is_set c.item)
    then []
    else if is_set sequence
    then search_sequence_types s sequence c.stock_type
    else one_if_set (s.preferred_storage_type c.item c.warehouse)

-- `_putaway_storage_types`, from what the rule says.
unfoldable pub putaway_types : Session → Context → Name → Name → List Name
putaway_types s c rule_type rule_sequence =
    if is_set c.user_storage_type
    then c.user_storage_type ∷ []
    else if is_set rule_type
    then rule_type ∷ []
    else if is_set rule_sequence
    then search_sequence_types s rule_sequence c.stock_type
    else if is_set c.forced_storage_type
    then c.forced_storage_type ∷ []
    else product_types s c

unfoldable pub bin_rule_fits : Context → BinRule → Bool
bin_rule_fits c r =
    (r.warehouse == c.warehouse)
    && (r.activity == c.activity)
    && fits r.item c.item
    && fits r.item_group c.item_group
    && fits r.stock_type c.stock_type
    && fits r.hu_type c.hu_type
    && fits r.source_storage_type c.source_storage_type
    && fits r.receipt_origin c.receipt_origin
    && fits r.production_supply_area c.production_supply_area

-- The storage types in turn, each with its strategy, section and group.
pub record Search : Type 0 where
  pub storage_type : Name
  pub strategy : Strategy
  pub section : Name
  pub group : Name

unfoldable pub search_types :
    Session → Context → Carry → List Search → Result DeterminationError (Option Name)
search_types s c k [] = ok none
search_types s c k (q ∷ qs) =
    let rest = search_types s c k qs in
    let bins = candidate_bins s c q.storage_type q.section q.group in
    if is_empty bins
    then rest
    else (apply_bin_strategy s c k q.strategy bins >>= λ found. elim found [
      | none ↦ rest
      | some b ↦ ok (some b)
    ])

unfoldable pub rule_searches : Session → Context → BinRule → List Search
rule_searches s c r =
    map
      (λ t. record {
        storage_type = t;
        strategy = r.strategy;
        section = or_name c.user_section r.destination_section;
        group = r.destination_storage_group;
      })
      (putaway_types s c r.destination_storage_type r.search_sequence)

abbrev pub is_near_fixed : Strategy → Bool
is_near_fixed near_fixed_bin = true
is_near_fixed _ = false

abbrev pub is_manual : Strategy → Bool
is_manual manual_selection = true
is_manual _ = false

-- Whether some storage type of the search has a bin.
unfoldable pub has_bins : Session → Context → List Search → Bool
has_bins s c [] = false
has_bins s c (q ∷ qs) =
    not (is_empty (candidate_bins s c q.storage_type q.section q.group)) || has_bins s c qs

unfoldable pub carry_on : Session → Context → BinRule → Carry → Carry
carry_on s c r k = record {
  fixed_bin =
      if is_near_fixed r.strategy && is_set c.item
      then s.fixed_bin c.item c.warehouse
      else k.fixed_bin;
  custom_name = if has_bins s c (rule_searches s c r) then r.custom_strategy else k.custom_name;
}

unfoldable pub default_search : Session → Context → Name → List Search → List Search
default_search s c t rest = elim (s.putaway_strategy t) [
  | none ↦ rest
  | some strategy ↦
      record { storage_type = t; strategy = strategy; section = c.user_section; group = 0 } ∷ rest
]

unfoldable pub default_searches : Session → Context → List Name → List Search
default_searches s c [] = []
default_searches s c (t ∷ ts) = default_search s c t (default_searches s c ts)

abbrev pub or_no_bin : Option Name → Result DeterminationError Name
or_no_bin none = err no_bin
or_no_bin (some b) = ok b

-- The loop over the rules, and the product's own storage types after them.
unfoldable pub try_rules : Session → Context → Carry → List BinRule → Result DeterminationError Name
try_rules s c k [] = do
  found ← search_types s c k (default_searches s c (putaway_types s c 0 0))
  or_no_bin found
try_rules s c k (r ∷ rs) =
    let k' = carry_on s c r k in
    let skipped = try_rules s c k rs in
    let rest = try_rules s c k' rs in
    if not (bin_rule_fits c r)
    then skipped
    else if is_set r.fixed_destination_bin
    then ok r.fixed_destination_bin
    else if is_manual r.strategy
    then err manual_bin
    else (search_types s c k' (rule_searches s c r) >>= λ found. elim found [
      | none ↦ rest
      | some b ↦ ok b
    ])

-- `determine_destination_bin`
unfoldable pub determine_destination_bin : Session → Context → Result DeterminationError Name
determine_destination_bin s c =
    try_rules s c (record { fixed_bin = 0; custom_name = 0 }) s.bin_rules
