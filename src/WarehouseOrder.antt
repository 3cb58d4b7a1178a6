-- ===== src/WarehouseOrder.antt =====
-- frappe_wms/services/warehouse_order.py: the strict sequence of the tasks of a Warehouse Order, and
-- the order's own status.
pub mod Sequence
pub mod Status
use frappe_ewm.Base.{
  Bool, List, Name, Option, [], any, false, from_option, if◌then◌else◌, is_empty, is_set, is_some,
  keep, leb, length, ltb, map, none, not, option_or, some, sorted, true, ℕ, ◌&&◌, ◌==◌, ◌||◌, ◌∷◌,
}

pub data TaskStatus : Type 0 where
  open_task on_hold available assigned in_process partially_confirmed exception : TaskStatus
  confirmed cancelled : TaskStatus

-- The fields of a `Warehouse Task` that sequencing reads and writes. A task that has no sequence yet
-- reads as zero.
pub record Task : Type 0 where
  pub name : Name
  pub status : TaskStatus
  pub sequence : Option ℕ
  -- docstatus 2
  pub doc_cancelled : Bool
  pub blocking_reason : Option Name

pub data OrderStatus : Type 0 where
  order_open order_assigned order_in_process order_blocked order_on_hold order_completed :
      OrderStatus

-- A `Warehouse Order`.
pub record Order : Type 0 where
  pub status : OrderStatus
  pub assigned_resource : Name
  pub blocking_reason : Option Name
  pub confirmed_count : ℕ
  pub started_at : Option ℕ
  pub completed_at : Option ℕ

-- `t.sequence or 0`
abbrev pub seq : Task → ℕ
seq t = from_option 0 t.sequence

-- The status is in `NON_TERMINAL_STATUSES`.
abbrev pub non_terminal : TaskStatus → Bool
non_terminal confirmed = false
non_terminal cancelled = false
non_terminal other = true

abbrev pub is_on_hold : TaskStatus → Bool
is_on_hold on_hold = true
is_on_hold other = false

-- A task that has not ended.
abbrev pub is_pending : Task → Bool
is_pending t = not t.doc_cancelled && non_terminal t.status

-- A task that somebody may work on: not ended, and not waiting its turn.
abbrev pub is_workable : Task → Bool
is_workable t = not t.doc_cancelled && (non_terminal t.status && not (is_on_hold t.status))

-- A task that waits its turn.
abbrev pub is_waiting : Task → Bool
is_waiting t = not t.doc_cancelled && is_on_hold t.status

-- `_gate_on_sequence`, on the tasks that the order has already.
unfoldable pub gate_on_sequence : Name → Task → ℕ → List Task → Task
gate_on_sequence reason task arrival_index siblings =
    let own = from_option arrival_index task.sequence in
    if any (λ s. is_pending s && ltb (seq s) own) siblings
    then record task { sequence = some own; status = on_hold; blocking_reason = some reason }
    else record task { sequence = some own }

-- `_sequence_gate_blocks`, on the tasks of the row's own order.
unfoldable pub sequence_gate_blocks : Task → List Task → Bool
sequence_gate_blocks row =
    any λ s. is_pending s && (not (s.name == row.name) && ltb (seq s) (seq row))

-- The lower of a sequence and the lowest of the others, if there are any.
abbrev pub lower : ℕ → Option ℕ → ℕ
lower n none = n
lower n (some m) = if ltb m n then m else n

-- `min(s.sequence or 0 for s in on_hold)`, if there is one.
unfoldable pub min_waiting : List Task → Option ℕ
min_waiting [] = none
min_waiting (t ∷ ts) =
    let rest = min_waiting ts in if is_waiting t then some (lower (seq t) rest) else rest

-- `frappe.db.set_value` on a task that is released.
unfoldable pub release_task : TaskStatus → ℕ → Task → Task
release_task new_status m t =
    if is_waiting t && (seq t == m)
    then record t { status = new_status; blocking_reason = none }
    else t

abbrev pub released_status : Order → TaskStatus
released_status o = if is_set o.assigned_resource then assigned else open_task

-- `release_next_in_sequence` by the lowest sequence that waits: the names that are released, and the
-- tasks after it.
unfoldable pub release_at : Order → Option ℕ → List Task → List Name × List Task
release_at o none ts = ([], ts)
release_at o (some m) ts = if any (λ t. is_workable t && ltb (seq t) m) ts then ([], ts) else (
  map (λ t. t.name) (keep (λ t. is_waiting t && (seq t == m)) ts),
  map (release_task (released_status o) m) ts,
)

unfoldable pub release_next_in_sequence : Order → List Task → List Name × List Task
release_next_in_sequence o ts = release_at o (min_waiting ts) ts

abbrev pub is_done : Task → Bool
is_done t = not (non_terminal t.status)

abbrev has_begun : TaskStatus → Bool
has_begun in_process = true
has_begun partially_confirmed = true
has_begun confirmed = true
has_begun other = false

-- The first of the tasks that have not ended, in the order of their sequence.
unfoldable pub lead_task : List Task → Option Task
lead_task ts =
    elim (sorted (λ a b. ltb (seq a) (seq b)) (keep (λ (t : Task). non_terminal t.status) ts)) [
      | [] ↦ none
      | t ∷ rest ↦ some t
    ]

abbrev is_exception : Option Task → Bool
is_exception none = false
is_exception (some t) = elim t.status [ exception ↦ true | _ ↦ false ]

abbrev lead_reason : Name → Option Task → Option Name
lead_reason default none = some default
lead_reason default (some t) = some (from_option default t.blocking_reason)

abbrev pub is_paused : OrderStatus → Bool
is_paused order_on_hold = true
is_paused other = false

abbrev is_blocked : OrderStatus → Bool
is_blocked order_blocked = true
is_blocked other = false

abbrev not_started : OrderStatus → Bool
not_started order_open = true
not_started order_assigned = true
not_started other = false

abbrev is_started : Option ℕ → Bool
is_started = is_some

unfoldable pub done_count : List Task → ℕ
done_count ts = length (keep is_done ts)

-- The last branch of `sync_warehouse_order`: some task has not ended.
unfoldable pub sync_running : ℕ → Name → Order → List Task → Order
sync_running now default o ts =
    if is_exception (lead_task ts)
    then record o {
      status = order_blocked;
      blocking_reason = lead_reason default (lead_task ts);
      confirmed_count = done_count ts;
    }
    else if any (λ (t : Task). has_begun t.status) ts
    then record o {
      status = order_in_process;
      blocking_reason = none;
      confirmed_count = done_count ts;
      started_at = if not_started o.status then some now else o.started_at;
    }
    else if is_blocked o.status
    then record o {
      status = if is_started o.started_at then order_in_process else order_open;
      blocking_reason = none;
      confirmed_count = done_count ts;
    }
    else record o { confirmed_count = done_count ts }

-- `sync_warehouse_order`
unfoldable pub sync_warehouse_order : ℕ → Name → Order → List Task → Order
sync_warehouse_order now default o ts =
    if is_empty ts || is_paused o.status
    then o
    else if leb (length ts) (done_count ts)
    then record o {
      status = order_completed;
      blocking_reason = none;
      confirmed_count = done_count ts;
      completed_at = some now;
      started_at = option_or o.started_at (some now);
    }
    else sync_running now default o ts
