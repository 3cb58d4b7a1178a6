-- ===== src/ErpQueue/Logs.antt =====
-- The logs of the queue of frappe_wms/services/erp_sync_queue.py, and the tables.
use frappe_ewm.Base.{
  Bool, List, Name, Option, [], false, find, from_option, if◌then◌else◌, is_set, leb, ltb, map,
  none, some, suc, true, zero, ℕ, ◌&&◌, ◌*◌, ◌+◌, ◌-◌, ◌==◌, ◌∷◌,
}
use frappe_ewm.ErpQueue.Types.{
  Call, Document, Error, Log, Operation, Payload, Status, SyncMode, cancelled, count_rows, done,
  failed, goods_issue, goods_issue_reversal, goods_receipt, goods_receipt_reversal, kitting_order,
  over_difference, posting_change, quality_inspection, queued, queued_with_retry, running,
  stock_adjustment, stock_adjustment_reversal, synchronous, work_order_transfer,
}

unfoldable pub same_operation : Operation → Operation → Bool
same_operation a b = code a == code b
  where
    code : Operation → ℕ
    code goods_receipt = 0
    code goods_receipt_reversal = 1
    code goods_issue = 2
    code goods_issue_reversal = 3
    code posting_change = 4
    code stock_adjustment = 5
    code stock_adjustment_reversal = 6
    code quality_inspection = 7
    code kitting_order = 8
    code work_order_transfer = 9
    code over_difference = 10
    code count_rows = 11

-- `REVERSES`
abbrev pub reverses : Operation → Option Operation
reverses goods_receipt_reversal = some goods_receipt
reverses goods_issue_reversal = some goods_issue
reverses stock_adjustment_reversal = some stock_adjustment
reverses _ = none

-- `PENDING`
abbrev pub is_pending : Status → Bool
is_pending queued = true
is_pending running = true
is_pending failed = true
is_pending done = false
is_pending cancelled = false

-- `status in ("Queued", "Failed")`
abbrev pub is_waiting : Status → Bool
is_waiting queued = true
is_waiting running = false
is_waiting failed = true
is_waiting done = false
is_waiting cancelled = false

abbrev pub max_attempts : ℕ
max_attempts = 12

-- `_("Reversed in the warehouse before it reached ERPNext")`
abbrev pub reversed_before : Name
reversed_before = 1

unfoldable pub find_log : Name → List Log → Option Log
find_log n [] = none
find_log n (l ∷ ls) = let rest = find_log n ls in if l.name == n then some l else rest

-- `log.db_set`; a log's name is unique.
unfoldable pub update_log : Name → (Log → Log) → List Log → List Log
update_log n f [] = []
update_log n f (l ∷ ls) = let rest = update_log n f ls in if l.name == n then f l ∷ ls else l ∷ rest

abbrev pub same_document : Name → Name → Document → Bool
same_document doctype n d = (d.doctype == doctype) && (d.name == n)

unfoldable pub find_document : Name → Name → List Document → Option Document
find_document doctype n ds = find (same_document doctype n) ds

-- The writes that an operation made to the document.
unfoldable pub save_document : Document → List Document → List Document
save_document d [] = []
save_document d (x ∷ xs) =
    let rest = save_document d xs in if same_document d.doctype d.name x then d ∷ xs else x ∷ rest

-- `mode`
unfoldable pub mode : Call → Name → SyncMode
mode c warehouse =
    if is_set warehouse then from_option synchronous (c.erp_sync_mode warehouse) else synchronous

abbrev pub is_queued_mode : SyncMode → Bool
is_queued_mode synchronous = false
is_queued_mode queued_with_retry = true

-- A log of the forward posting that has not reached ERPNext.
unfoldable pub is_forward : Document → Operation → Log → Bool
is_forward doc forward l =
    (l.reference_doctype == doc.doctype)
    && (l.reference_name == doc.name)
    && same_operation l.operation forward
    && is_pending l.status

unfoldable pub cancel_log : Log → Log
cancel_log l = record l { status = cancelled; last_error = reversed_before }

unfoldable pub cancel_forward : Document → Operation → List Log → List Log
cancel_forward doc forward = map λ l. if is_forward doc forward l then cancel_log l else l

unfoldable pub new_log : Call → Operation → Document → Payload → ℕ → Log
new_log c op doc p number = record {
  name = c.log_name number;
  operation = op;
  status = queued;
  warehouse = doc.warehouse;
  reference_doctype = doc.doctype;
  reference_name = doc.name;
  payload = p;
  creation = c.now;
  modified = c.now;
  attempts = 0;
  next_retry_at = none;
  completed_at = none;
  last_error = 0;
}

-- `_("... minutes=min(5 * 2 ** (attempts - 1), 360)")`
abbrev pub pow2 : ℕ → ℕ
pow2 zero = 1
pow2 (suc n) = 2 * pow2 n

abbrev pub backoff : ℕ → ℕ
backoff attempts = let wait = 5 * pow2 (attempts - 1) in if ltb 360 wait then 360 else wait

unfoldable pub fail_log : Call → Error → Log → Log
fail_log c e l = record l {
  status = failed;
  attempts = l.attempts + 1;
  last_error = c.traceback e;
  next_retry_at = some (c.now + backoff (l.attempts + 1));
  modified = c.now;
}

unfoldable pub finish_log : Call → Log → Log
finish_log c l = record l {
  status = done;
  attempts = l.attempts + 1;
  completed_at = some c.now;
  last_error = 0;
  modified = c.now;
}

unfoldable pub postpone_log : Call → Log → Log
postpone_log c l = record l { next_retry_at = some (c.now + 2) }

-- A posting for the same document that was made before this one and still waits.
unfoldable pub is_earlier : Log → Log → Bool
is_earlier log l =
    (l.reference_doctype == log.reference_doctype)
    && (l.reference_name == log.reference_name)
    && is_waiting l.status
    && ltb l.creation log.creation

abbrev pub passed : Option ℕ → ℕ → Bool
passed none now = true
passed (some at) now = leb at now

-- The rows that `retry_due` selects.
unfoldable pub is_due : ℕ → Log → Bool
is_due now l = elim l.status [
  | failed ↦ ltb l.attempts max_attempts && passed l.next_retry_at now
  | queued ↦ leb (l.creation + 10) now
  | running ↦ leb (l.modified + 10) now
  | done ↦ false
  | cancelled ↦ false
]

unfoldable pub unstick_from : Status → Log → Log
unstick_from running l = record l { status = failed }
unstick_from _ l = l

-- A running log whose job was lost counts as failed.
unfoldable pub unstick : Log → Log
unstick l = unstick_from l.status l

unfoldable pub reopen : Log → Log
reopen l = record l { status = failed; next_retry_at = none }
