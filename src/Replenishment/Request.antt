-- ===== src/Replenishment/Request.antt =====
-- The operations of frappe_wms/services/replenishment.py.
use frappe_ewm.Base.{
  Bool, List, Name, Option, Result, [], err, find, if◌then◌else◌, keep, leb_ℤ, length, ltb_ℤ, min_ℤ,
  none, not, ok, or_name, pos, some, throw_if, ℕ, ℤ, ◌&&◌, ◌++◌, ◌-ℤ◌, ◌==◌, ◌>>=◌, ◌>>◌, ◌||◌, ◌∷◌,
}
use frappe_ewm.Replenishment.Source.{
  best_source_bin, current_quantity, high, normal, order_related_request_exists,
  pending_request_exists, rule_doctype, task_doctype, user_doctype,
}
use frappe_ewm.Replenishment.Types.{
  ReplenishError, Request, Rule, Session, Task, World, no_source, not_permitted,
  not_positive_quantity, request_open,
}
use frappe_ewm.Stock.Types.{Balance}

-- What a new request is made for.
pub record Need : Type 0 where
  pub warehouse : Name
  pub product : Name
  pub stock_uom : Name
  pub destination_bin : Name
  pub stock_type : Name
  pub reference_doctype : Name
  pub reference_name : Name
  pub reference_line : Name
  pub priority : Name

unfoldable pub request_of : Session → Need → Balance → ℤ → ℕ → Request
request_of s need source qty number = record {
  name = s.request_name number;
  warehouse = need.warehouse;
  product = need.product;
  requested_quantity = qty;
  stock_uom = need.stock_uom;
  source_bin = source.place.storage_bin;
  source_hu = source.place.handling_unit;
  batch_no = source.place.batch_no;
  serial_no = source.place.serial_no;
  destination_bin = need.destination_bin;
  stock_type = need.stock_type;
  reference_doctype = need.reference_doctype;
  reference_name = need.reference_name;
  reference_line = need.reference_line;
  process_type = s.determine_process_type need.warehouse need.product need.stock_type;
  priority = need.priority;
  status = request_open;
}

-- `request.insert()` and `create_tasks_for_request(request.name)`: the request, the task, the tables.
unfoldable pub raise_request :
    Session → Need → Balance → ℤ → World → Result ReplenishError (Request × Name × World)
raise_request s need source qty w =
    let r = request_of s need source qty (length w.requests) in
    do
      (task, w') ← s.create_tasks_for_request r.name (record w { requests = w.requests ++ r ∷ [] })
      ok (r, task, w')

unfoldable pub rule_need : Session → Rule → Need
rule_need s rule = record {
  warehouse = rule.warehouse;
  product = rule.product;
  stock_uom = s.uom_of_product rule.product;
  destination_bin = rule.storage_bin;
  stock_type = rule.stock_type;
  reference_doctype = rule_doctype;
  reference_name = rule.name;
  reference_line = 0;
  priority = or_name rule.priority normal;
}

-- The quantity that a rule's request asks for, with the balance it comes from; none when the bin has
-- enough, a request is under way, or there is nothing to move.
unfoldable pub rule_quantity : Session → Rule → World → Option (Balance × ℤ)
rule_quantity s rule w =
    let current =
      current_quantity rule.warehouse rule.product rule.storage_bin rule.stock_type w.balances in
    if ltb_ℤ rule.minimum_quantity current
    then none
    else if pending_request_exists rule.name w.requests
    then none
    else elim (best_source_bin s rule.warehouse rule.product rule.source_storage_type
        rule.stock_type rule.storage_bin w.balances) [
          | none ↦ none
          | some source ↦
              if leb_ℤ source.available_quantity (pos 0)
              then none
              else (let qty = min_ℤ (rule.target_quantity -ℤ current) source.available_quantity in
                  if leb_ℤ qty (pos 0) then none else some (source, qty))
        ]

-- `_replenish_for_rule`: the task, if one was made.
unfoldable pub replenish_for_rule :
    Session → Rule → World → Result ReplenishError (Option Name × World)
replenish_for_rule s rule w = elim (rule_quantity s rule w) [
  | none ↦ ok (none, w)
  | some (source, qty) ↦ raise_request s (rule_need s rule) source qty w >>= λ r. ok (some r.1, r.2)
]

abbrev pub add_task : Option Name → List Name → List Name
add_task none ts = ts
add_task (some t) ts = t ∷ ts

unfoldable pub replenish_rules :
    Session → List Rule → World → Result ReplenishError (List Name × World)
replenish_rules s [] w = ok ([], w)
replenish_rules s (r ∷ rs) w = do
  (task, w1) ← replenish_for_rule s r w
  (tasks, w2) ← replenish_rules s rs w1
  ok (add_task task tasks, w2)

-- `check_replenishment_needs`
unfoldable pub check_replenishment_needs :
    Session → World → Result ReplenishError (List Name × World)
check_replenishment_needs s w = do
  throw_if (not s.has_role) not_permitted
  replenish_rules s (keep (λ r. r.active) s.rules) w

abbrev is_rule_of : Task → Rule → Bool
is_rule_of t r =
    r.active
    && (r.warehouse == t.warehouse)
    && (r.product == t.product)
    && (r.storage_bin == t.source_bin)

-- `replenish_after_removal`
unfoldable pub replenish_after_removal :
    Session → Task → World → Result ReplenishError (List Name × World)
replenish_after_removal s t w = replenish_rules s (keep (is_rule_of t) s.rules) w

unfoldable pub task_need : Task → Name → Need
task_need t stock_type = record {
  warehouse = t.warehouse;
  product = t.product;
  stock_uom = t.stock_uom;
  destination_bin = t.source_bin;
  stock_type = stock_type;
  reference_doctype = task_doctype;
  reference_name = t.name;
  reference_line = 0;
  priority = high;
}

-- `min(needed, available) if needed > 0 else available`
abbrev pub order_quantity : ℤ → ℤ → ℤ
order_quantity needed available = if ltb_ℤ (pos 0) needed then min_ℤ needed available else available

unfoldable pub order_related_from :
    Session → Task → Rule → World → Result ReplenishError (Option Name × World)
order_related_from s t rule w =
    let stock_type = or_name rule.stock_type t.stock_type_from in
    let current = current_quantity t.warehouse t.product t.source_bin stock_type w.balances in
    elim (best_source_bin s t.warehouse t.product rule.source_storage_type stock_type t.source_bin
      w.balances) [
        | none ↦ ok (none, w)
        | some source ↦
            let qty = order_quantity (rule.target_quantity -ℤ current) source.available_quantity in
            if leb_ℤ source.available_quantity (pos 0) || leb_ℤ qty (pos 0)
            then ok (none, w)
            else (raise_request s (task_need t stock_type) source qty w >>= λ r.
                ok (some r.0.name, r.2))
      ]

-- `create_order_related_replenishment`
unfoldable pub create_order_related_replenishment :
    Session → Task → World → Result ReplenishError (Option Name × World)
create_order_related_replenishment s t w =
    if order_related_request_exists t.name w.requests
    then ok (none, w)
    else elim (find (is_rule_of t) s.rules) [
      | none ↦ ok (none, w)
      | some rule ↦ order_related_from s t rule w
    ]

-- `_create_replenishment_request`: the request and its task.
unfoldable pub create_replenishment_request :
    Session → Need → ℤ → Name → World → Result ReplenishError (Request × Name × World)
create_replenishment_request s need quantity source_storage_type w = do
  throw_if (leb_ℤ quantity (pos 0)) not_positive_quantity
  elim (best_source_bin s need.warehouse need.product source_storage_type need.stock_type
      need.destination_bin w.balances) [
        | none ↦ err no_source
        | some source ↦
            if leb_ℤ source.available_quantity (pos 0)
            then err no_source
            else raise_request s need source (min_ℤ quantity source.available_quantity) w
      ]

-- `request_direct_replenishment`
unfoldable pub request_direct_replenishment :
    Session
    → Name
    → Name
    → Name
    → Name
    → ℤ
    → Name
    → World
    → Result ReplenishError (Request × Name × World)
request_direct_replenishment s warehouse product storage_bin stock_type quantity source_type w = do
  throw_if (not s.has_role) not_permitted
  create_replenishment_request s
      (record {
        warehouse = warehouse;
        product = product;
        stock_uom = s.uom_of_product product;
        destination_bin = storage_bin;
        stock_type = stock_type;
        reference_doctype = user_doctype;
        reference_name = s.user;
        reference_line = 0;
        priority = normal;
      })
      quantity source_type w
