-- ===== src/ErpQueue/Calls.antt =====
-- What each call of frappe_wms/services/erp_sync_queue.py does to the logs of the queue.
use frappe_ewm.Base.{
  >>=-eq-ok, Bool-cases, List, Name, Option, Option-cases, Result, [], any, ap, arith, err, inl,
  inr, length, none, not, ok, some, subst, throw_if-eq-ok, true, ◌||◌, ◌∙◌, ◌∷◌, ◌≡◌,
}
use frappe_ewm.ErpQueue.Logs.{
  fail_log, find_document, find_log, finish_log, is_earlier, is_forward, is_queued_mode, is_waiting,
  mode, new_log, postpone_log, reopen, reverses, save_document, unstick, update_log,
}
use frappe_ewm.ErpQueue.Operations.{operate}
use frappe_ewm.ErpQueue.Order.{
  LaterLogs, LaterLogs-append, LaterLogs-refl, LaterLogs-trans, cancel_forward-LaterLogs,
  fail_log-LaterLog, find_log-name, finish_log-LaterLog, postpone_log-LaterLog, reopen-LaterLog,
  unstick-LaterLog, update_log-LaterLogs, update_log-LaterLogs_all,
}
use frappe_ewm.ErpQueue.Queue.{
  Outcome, attempt, dispatch, enqueue, inline, now_at, queue_reversal, retry_each, retry_found,
  retry_now, run, run_found, run_log, settle, waiting,
}
use frappe_ewm.ErpQueue.Types.{
  Call, Document, ErpNext, Error, Log, Operation, Payload, World, not_permitted, not_retriable,
}

module _ {E : Type 0} (api : ErpNext E) where
  settle-LaterLogs :
      (c : Call) (l : Log) (w : World E) (r : Result Error (Document × E))
      → find_log l.name w.logs ≡ some l
      → is_waiting l.status ≡ true
      → LaterLogs w.logs (settle api c l w r).1.logs
  unfolding settle
  settle-LaterLogs c l w (err e) found waits =
      update_log-LaterLogs l.name (fail_log c e) w.logs found (fail_log-LaterLog c e l waits)
  settle-LaterLogs c l w (ok (doc, erp)) found waits =
      update_log-LaterLogs l.name (finish_log c) w.logs found (finish_log-LaterLog c l waits)

  run_log-LaterLogs :
      (c : Call) (l : Log) (w : World E) {out : Outcome × World E}
      → find_log l.name w.logs ≡ some l
      → run_log api c l w ≡ ok out
      → LaterLogs w.logs out.1.logs
  unfolding run_log attempt
  run_log-LaterLogs c l w {out} found goes = elim (Bool-cases (is_waiting l.status)) [
    | inr settled ↦
        let same : (now_at l.status, w) ≡ out = cc (rw settled at goes) in
        subst (λ o. LaterLogs w.logs o.1.logs) same (LaterLogs-refl w.logs)
    | inl waits ↦ elim (Bool-cases (any (is_earlier l) w.logs)) [
      | inl behind ↦
          let same : (waiting, record w { logs = update_log l.name (postpone_log c) w.logs })
              ≡ out =
            cc (rw (waits, behind) at goes) in
          subst (λ o. LaterLogs w.logs o.1.logs) same
            (update_log-LaterLogs l.name (postpone_log c) w.logs found
              (postpone_log-LaterLog c l waits))
      | inr first ↦
          elim (Option-cases (find_document l.reference_doctype l.reference_name w.documents)) [
            | inl gone ↦ cc (rw (waits, first, gone) at goes)
            | inr (doc, there) ↦
                let same : settle api c l w (operate api l.operation l.payload doc w.erp) ≡ out =
                  cc (rw (waits, first, there) at goes) in
                subst (λ o. LaterLogs w.logs o.1.logs) same
                  (settle-LaterLogs c l w (operate api l.operation l.payload doc w.erp) found waits)
          ]
    ]
  ]

  pub run-LaterLogs :
      (c : Call) (n : Name) (w : World E) {out : Outcome × World E}
      → run api c n w ≡ ok out
      → LaterLogs w.logs out.1.logs
  unfolding run run_found
  run-LaterLogs c n w {out} goes = elim (Option-cases (find_log n w.logs)) [
    | inl gone ↦ cc (rw gone at goes)
    | inr (l, there) ↦
        let named = find_log-name n w.logs there in
        run_log-LaterLogs c l w (ap (λ m. find_log m w.logs) named ∙ there) (rw there at goes)
  ]

  pub dispatch-LaterLogs :
      (c : Call) (o : Option Operation) (p : Payload) (doc : Document) (w : World E) {w' : World E}
      → dispatch api c o p doc w ≡ ok w'
      → LaterLogs w.logs w'.logs
  unfolding dispatch inline queue_reversal enqueue
  dispatch-LaterLogs c none p doc w goes = cc
  dispatch-LaterLogs c (some op) p doc w {w'} goes =
      elim (Bool-cases (c.wms_erp_sync_job || not (is_queued_mode (mode c doc.warehouse)))) [
        | inl at_once ↦
            let (posted, _, ends) =
              >>=-eq-ok (operate api op p doc w.erp)
                (λ x. ok (record w { documents = save_document x.0 w.documents; erp = x.1 }))
                {b = w'} (rw at_once at goes) in
            let same : w.logs ≡ w'.logs = cc (ap (λ r. result_logs r) ends) in
            subst (λ ls. LaterLogs w.logs ls) same (LaterLogs-refl w.logs)
        | inr later ↦
            let same : queue_reversal api c op p doc w (reverses op) ≡ w' = cc (rw later at goes) in
            subst (λ x. LaterLogs w.logs x.logs) same (queued_logs (reverses op))
      ]
    where
      result_logs : Result Error (World E) → List Log
      result_logs (err e) = w.logs
      result_logs (ok x) = x.logs

      queued_logs :
          (o : Option Operation) → LaterLogs w.logs (queue_reversal api c op p doc w o).logs
      queued_logs none = LaterLogs-append w.logs (new_log c op doc p (length w.logs) ∷ [])
      queued_logs (some forward) = elim (Bool-cases (any (is_forward doc forward) w.logs)) [
        | inl made ↦ rw made (cancel_forward-LaterLogs doc forward w.logs)
        | inr not_made ↦
            rw not_made (LaterLogs-append w.logs (new_log c op doc p (length w.logs) ∷ []))
      ]

  pub retry_each-LaterLogs :
      (c : Call) (rs : List Log) (w : World E) {w' : World E}
      → retry_each api c rs w ≡ ok w'
      → LaterLogs w.logs w'.logs
  unfolding retry_each
  retry_each-LaterLogs c [] w {w'} goes =
      let same : w ≡ w' = cc goes in
      subst (λ x. LaterLogs w.logs x.logs) same (LaterLogs-refl w.logs)
  retry_each-LaterLogs c (r ∷ rs) w {w'} goes =
      let start = record w { logs = update_log r.name unstick w.logs } in
      let (out, ran, rest) =
        >>=-eq-ok (run api c r.name start) (λ x. retry_each api c rs x.1) {b = w'} goes in
      LaterLogs-trans w.logs out.1.logs w'.logs
        (LaterLogs-trans w.logs start.logs out.1.logs
          (update_log-LaterLogs_all r.name unstick w.logs unstick-LaterLog)
          (run-LaterLogs c r.name start ran))
        (retry_each-LaterLogs c rs out.1 rest)

  pub retry_now-LaterLogs :
      (c : Call) (n : Name) (w : World E) {out : Outcome × World E}
      → retry_now api c n w ≡ ok out
      → LaterLogs w.logs out.1.logs
  unfolding retry_now retry_found
  retry_now-LaterLogs c n w {out} goes =
      let (_, found) =
        throw_if-eq-ok (not c.has_role) not_permitted (retry_found api c w (find_log n w.logs))
          {b = out} goes in
      elim (Option-cases (find_log n w.logs)) [
        | inl gone ↦ cc (rw gone at found)
        | inr (l, there) ↦
            let start = record w { logs = update_log l.name reopen w.logs } in
            let (waits, ran) =
              throw_if-eq-ok (not (is_waiting l.status)) not_retriable (run api c l.name start)
                {b = out} (rw there at found) in
            let named = find_log-name n w.logs there in
            LaterLogs-trans w.logs start.logs out.1.logs
              (update_log-LaterLogs l.name reopen w.logs (ap (λ m. find_log m w.logs) named ∙ there)
                (reopen-LaterLog l (ground arith)))
              (run-LaterLogs c l.name start ran)
      ]
