-- ===== src/ErpQueue/Queue.antt =====
-- The queue of frappe_wms/services/erp_sync_queue.py: `dispatch`, `run`, and the retries.
use frappe_ewm.Base.{
  List, Name, Option, Result, [], any, err, if◌then◌else◌, is_set, keep, length, none, not, ok,
  some, take, throw_if, ℕ, ◌&&◌, ◌++◌, ◌==◌, ◌>>=◌, ◌>>◌, ◌||◌, ◌∷◌,
}
use frappe_ewm.ErpQueue.Logs.{
  cancel_forward, fail_log, find_document, find_log, finish_log, is_due, is_earlier, is_forward,
  is_queued_mode, is_waiting, mode, new_log, postpone_log, reopen, reverses, save_document, unstick,
  update_log,
}
use frappe_ewm.ErpQueue.Operations.{operate}
use frappe_ewm.ErpQueue.Types.{
  Call, Document, ErpNext, Error, Log, Operation, Payload, Status, World, done, failed, not_found,
  not_permitted, not_retriable, unknown_operation,
}

-- What `run` returns.
pub data Outcome : Type 0 where
  now_at : Status → Outcome
  waiting : Outcome

module _ {E : Type 0} (api : ErpNext E) where
  -- The posting inside its savepoint: an error takes back what it did.
  unfoldable pub settle : Call → Log → World E → Result Error (Document × E) → Outcome × World E
  settle c log w (err e) =
      (now_at failed, record w { logs = update_log log.name (fail_log c e) w.logs })
  settle c log w (ok (doc, erp)) = (
    now_at done,
    record w {
      documents = save_document doc w.documents;
      erp = erp;
      logs = update_log log.name (finish_log c) w.logs;
    },
  )

  unfoldable pub attempt : Call → Log → World E → Option Document → Result Error (Outcome × World E)
  attempt c log w none = err not_found
  attempt c log w (some doc) = ok (settle c log w (operate api log.operation log.payload doc w.erp))

  unfoldable pub run_log : Call → Log → World E → Result Error (Outcome × World E)
  run_log c log w =
      if not (is_waiting log.status)
      then ok (now_at log.status, w)
      else if any (is_earlier log) w.logs
      then ok (waiting, record w { logs = update_log log.name (postpone_log c) w.logs })
      else attempt c log w (find_document log.reference_doctype log.reference_name w.documents)

  unfoldable pub run_found : Call → World E → Option Log → Result Error (Outcome × World E)
  run_found c w none = err not_found
  run_found c w (some log) = run_log c log w

  -- `run`
  unfoldable pub run : Call → Name → World E → Result Error (Outcome × World E)
  run c n w = run_found c w (find_log n w.logs)

  unfoldable pub inline : Operation → Payload → Document → World E → Result Error (World E)
  inline op p doc w = do
    (doc', erp') ← operate api op p doc w.erp
    ok (record w { documents = save_document doc' w.documents; erp = erp' })

  unfoldable pub enqueue : Call → Operation → Payload → Document → World E → World E
  enqueue c op p doc w = record w { logs = w.logs ++ new_log c op doc p (length w.logs) ∷ [] }

  unfoldable pub queue_reversal :
      Call → Operation → Payload → Document → World E → Option Operation → World E
  queue_reversal c op p doc w none = enqueue c op p doc w
  queue_reversal c op p doc w (some forward) =
      if any (is_forward doc forward) w.logs
      then record w { logs = cancel_forward doc forward w.logs }
      else enqueue c op p doc w

  -- `dispatch`
  unfoldable pub dispatch :
      Call → Option Operation → Payload → Document → World E → Result Error (World E)
  dispatch c none p doc w = err unknown_operation
  dispatch c (some op) p doc w =
      if c.wms_erp_sync_job || not (is_queued_mode (mode c doc.warehouse))
      then inline op p doc w
      else ok (queue_reversal c op p doc w (reverses op))

  unfoldable pub retry_each : Call → List Log → World E → Result Error (World E)
  retry_each c [] w = ok w
  retry_each c (r ∷ rs) w = do
    (out, w1) ← run c r.name (record w { logs = update_log r.name unstick w.logs })
    retry_each c rs w1

  -- `retry_due`
  unfoldable pub retry_due : Call → World E → Result Error (World E)
  retry_due c w = retry_each c (take 200 (keep (is_due c.now) w.logs)) w

  unfoldable pub retry_found : Call → World E → Option Log → Result Error (Outcome × World E)
  retry_found c w none = err not_retriable
  retry_found c w (some log) = do
    throw_if (not (is_waiting log.status)) not_retriable
    run c log.name (record w { logs = update_log log.name reopen w.logs })

  -- `retry_now`
  unfoldable pub retry_now : Call → Name → World E → Result Error (Outcome × World E)
  retry_now c n w = do throw_if (not c.has_role) not_permitted; retry_found c w (find_log n w.logs)

-- `open_problems`
unfoldable pub open_problems : Name → ℕ → List Log → List Log
open_problems warehouse limit logs =
    take limit (
      keep (λ l. is_waiting l.status && (not (is_set warehouse) || (l.warehouse == warehouse)))
        logs)
