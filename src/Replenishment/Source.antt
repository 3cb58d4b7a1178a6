-- ===== src/Replenishment/Source.antt =====
-- What lies in a bin, and the best stock to refill it from, in frappe_wms/services/replenishment.py.
use frappe_ewm.Base.{
  Bool, List, Name, Option, [], any, false, is_set, keep, ltb_ℤ, none, not, pos, some, sorted, true,
  ℤ, ◌&&◌, ◌+ℤ◌, ◌==◌, ◌∷◌,
}
use frappe_ewm.Replenishment.Types.{
  Bin, Request, RequestStatus, Session, request_cancelled, request_completed, request_in_process,
  request_open,
}
use frappe_ewm.Stock.Types.{Balance}

-- Document types and the priorities "Normal" and "High".
abbrev pub rule_doctype : Name
rule_doctype = 90

abbrev pub task_doctype : Name
task_doctype = 91

abbrev pub user_doctype : Name
user_doctype = 92

abbrev pub normal : Name
normal = 93

abbrev pub high : Name
high = 94

abbrev pub is_ended : RequestStatus → Bool
is_ended request_open = false
is_ended request_in_process = false
is_ended request_completed = true
is_ended request_cancelled = true

unfoldable pub request_exists : Name → Name → List Request → Bool
request_exists doctype n =
    any λ r. (r.reference_doctype == doctype) && (r.reference_name == n) && not (is_ended r.status)

-- `_pending_request_exists`
abbrev pub pending_request_exists : Name → List Request → Bool
pending_request_exists n requests = request_exists rule_doctype n requests

-- `_order_related_request_exists`
abbrev pub order_related_request_exists : Name → List Request → Bool
order_related_request_exists n requests = request_exists task_doctype n requests

unfoldable pub sum_quantity : List Balance → ℤ
sum_quantity [] = pos 0
sum_quantity (b ∷ bs) = b.quantity +ℤ sum_quantity bs

unfoldable pub lies_in : Name → Name → Name → Name → Balance → Bool
lies_in warehouse product storage_bin stock_type b =
    (b.place.warehouse == warehouse)
    && (b.place.product == product)
    && (b.place.storage_bin == storage_bin)
    && (b.place.stock_type == stock_type)

-- `_current_quantity`
unfoldable pub current_quantity : Name → Name → Name → Name → List Balance → ℤ
current_quantity warehouse product storage_bin stock_type balances =
    sum_quantity (keep (lies_in warehouse product storage_bin stock_type) balances)

abbrev pub is_source_bin : Name → Name → Name → Bin → Bool
is_source_bin warehouse storage_type n b =
    (b.warehouse == warehouse)
    && (b.storage_type == storage_type)
    && not b.removal_blocked
    && (b.name == n)

-- Stock that is nobody's in particular.
unfoldable pub is_common : Balance → Bool
is_common b =
    not (is_set b.owner.stock_owner)
    && not (is_set b.owner.entitled_party)
    && not (is_set b.owner.special_stock_ref)
    && not (is_set b.owner.consolidation_group)

unfoldable pub is_source : Session → Name → Name → Name → Name → Name → Balance → Bool
is_source s warehouse product storage_type stock_type exclude_bin b =
    (b.place.warehouse == warehouse)
    && (b.place.product == product)
    && (b.place.stock_type == stock_type)
    && is_common b
    && any (is_source_bin warehouse storage_type b.place.storage_bin) s.bins
    && ltb_ℤ (pos 0) b.available_quantity
    && not (b.place.storage_bin == exclude_bin)

-- `available_quantity desc`
abbrev pub more_available : Balance → Balance → Bool
more_available a b = ltb_ℤ b.available_quantity a.available_quantity

abbrev pub first : List Balance → Option Balance
first [] = none
first (b ∷ bs) = some b

-- `_best_source_bin`: the balance, whose available quantity is returned with it.
unfoldable pub best_source_bin :
    Session → Name → Name → Name → Name → Name → List Balance → Option Balance
best_source_bin s warehouse product storage_type stock_type exclude_bin balances = first (
    sorted more_available
      (keep (is_source s warehouse product storage_type stock_type exclude_bin) balances))
