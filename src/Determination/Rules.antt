-- ===== src/Determination/Rules.antt =====
-- Rules that are tried in the order of their priority, in frappe_wms/services/determination.py.
use frappe_ewm.Base.{
  Bool, List, Name, Option, Result, [], err, find, if◌then◌else◌, is_set, keep, none, not, ok,
  or_name, some, ◌&&◌, ◌==◌, ◌||◌, ◌∷◌,
}
use frappe_ewm.Determination.Types.{
  Context, DeterminationError, InspectionRule, ProcessRule, SearchSequence, Session, TypeRule,
  no_process,
}

-- `not rule.get(key) or rule.get(key) == context.get(key)`
abbrev pub fits : Name → Name → Bool
fits wanted given = not (is_set wanted) || (wanted == given)

unfoldable pub process_rule_fits : Context → ProcessRule → Bool
process_rule_fits c r =
    (r.warehouse == c.warehouse)
    && fits r.document_type c.document_type
    && fits r.item c.item
    && fits r.item_group c.item_group
    && fits r.stock_type c.stock_type
    && fits r.source_storage_type c.source_storage_type
    && fits r.destination_storage_type c.destination_storage_type
    && fits r.route c.route

-- `determine_storage_process`
unfoldable pub determine_storage_process : Session → Context → Result DeterminationError Name
determine_storage_process s c = elim (find (process_rule_fits c) s.process_rules) [
  | none ↦ err no_process
  | some r ↦ ok r.storage_process
]

unfoldable pub inspection_rule_fits : Name → Name → Name → InspectionRule → Bool
inspection_rule_fits warehouse item item_group r =
    fits r.warehouse warehouse && fits r.item item && fits r.item_group item_group

-- `matches_inspection_rule`
unfoldable pub matches_inspection_rule : Session → Name → Name → Name → Option Name
matches_inspection_rule s warehouse item item_group =
    elim (find (inspection_rule_fits warehouse item item_group) s.inspection_rules) [
      | none ↦ none
      | some r ↦ some r.name
    ]

-- The arguments of `determine_process_type`.
pub record Asked : Type 0 where
  pub warehouse : Name
  pub activity : Name
  pub item : Name
  pub item_group : Name
  pub stock_type : Name
  pub priority_level : Name
  pub default : Name

unfoldable pub indicator_for : Session → Asked → Name
indicator_for s a =
    if is_set a.item && is_set a.warehouse then s.process_indicator a.item a.warehouse else 0

unfoldable pub type_rule_fits : Session → Asked → TypeRule → Bool
type_rule_fits s a r =
    (r.activity == a.activity)
    && fits r.warehouse a.warehouse
    && fits r.item a.item
    && fits r.item_group a.item_group
    && fits r.stock_type a.stock_type
    && fits r.priority_level a.priority_level
    && fits r.process_type_determination_indicator (indicator_for s a)

-- `determine_process_type`
unfoldable pub determine_process_type : Session → Asked → Name
determine_process_type s a = elim (find (type_rule_fits s a) s.type_rules) [
  | none ↦ a.default
  | some r ↦ r.process_type
]

abbrev pub first_name : List SearchSequence → Name
first_name [] = 0
first_name (q ∷ qs) = q.name

-- `search_sequence_for` for a putaway: one for the exact stock type, else one without.
unfoldable pub search_sequence_for : Session → Name → Name → Name → Name
search_sequence_for s warehouse indicator stock_type =
    let rows =
      keep (λ q. (q.warehouse == warehouse) && (q.indicator == indicator)) s.search_sequences in
    if is_set indicator
    then or_name (first_name (keep (λ q. is_set stock_type && (q.stock_type == stock_type)) rows))
        (first_name (keep (λ q. not (is_set q.stock_type)) rows))
    else 0

-- `_search_sequence_storage_types`
unfoldable pub search_sequence_types : Session → Name → Name → List Name
search_sequence_types s n stock_type = elim (find (λ q. q.name == n) s.search_sequences) [
  | none ↦ []
  | some q ↦ if fits q.stock_type stock_type then q.storage_types else []
]
