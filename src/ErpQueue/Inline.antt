-- ===== src/ErpQueue/Inline.antt =====
-- One run of a queued posting of frappe_wms/services/erp_sync_queue.py.
use frappe_ewm.Base.{
  >>=-eq-ok, All, Bool, Bool-cases, List, Name, Option, [], any, any-false, ap, arith, false, inl,
  inr, length, none, not, ok, refl, some, sym, true, ◌++◌, ◌==◌, ◌||◌, ◌∷◌, ◌≡◌, ◌⊎◌,
}
use frappe_ewm.ErpQueue.Logs.{
  find_document, find_log, finish_log, is_earlier, is_forward, is_queued_mode, is_waiting, mode,
  new_log, postpone_log, reverses, save_document, update_log,
}
use frappe_ewm.ErpQueue.Operations.{operate}
use frappe_ewm.ErpQueue.Queue.{
  Outcome, attempt, dispatch, enqueue, inline, now_at, queue_reversal, run, run_found, run_log,
  settle, waiting,
}
use frappe_ewm.ErpQueue.Types.{Call, Document, ErpNext, Log, Operation, Payload, World, done}

find_log-append :
    (n : Name) (ls : List Log) (l : Log)
    → find_log n ls ≡ none
    → l.name ≡ n
    → find_log n (ls ++ l ∷ []) ≡ some l
unfolding find_log
find_log-append n [] l fresh named = ground (arith, named)
find_log-append n (x ∷ xs) l fresh named = elim (Bool-cases (x.name == n)) [
  | inl same ↦ cc (rw same at fresh)
  | inr other ↦ rw other (find_log-append n xs l (rw other at fresh) named)
]

any-append :
    (p : Log → Bool) (ls : List Log) (l : Log)
    → any p ls ≡ false
    → p l ≡ false
    → any p (ls ++ l ∷ []) ≡ false
any-append p [] l before last = ground (arith, last)
any-append p (x ∷ xs) l before last = ground (arith, any-append p xs l (ground arith) last)

not_before_itself : (l : Log) → is_earlier l l ≡ false
unfolding is_earlier
not_before_itself l = ground arith

-- A posting of the operation that this one would reverse is still to come.
abbrev pub has_forward : Document → Option Operation → List Log → Bool
has_forward doc none logs = false
has_forward doc (some forward) logs = any (is_forward doc forward) logs

module _ {E : Type 0} (api : ErpNext E) where
  -- Running a log that is there leaves the documents and ERPNext as they are, unless the log waits
  -- and no posting for the same document that was made before it still waits.
  pub run-no_overtaking :
      (c : Call) (n : Name) (w : World E) {out : Outcome × World E} {l : Log}
      → find_log n w.logs ≡ some l
      → run api c n w ≡ ok out
      → ((out.1.erp ≡ w.erp) × (out.1.documents ≡ w.documents))
        ⊎ ((is_waiting l.status ≡ true) × All (λ e. is_earlier l e ≡ false) w.logs)
  unfolding run run_found run_log
  run-no_overtaking c n w {out} {l} found goes = elim (Bool-cases (is_waiting l.status)) [
    | inr settled ↦
        let same : (now_at l.status, w) ≡ out = cc (rw (found, settled) at goes) in
        inl (ap (λ o. o.1.erp) (sym same), ap (λ o. o.1.documents) (sym same))
    | inl waits ↦ elim (Bool-cases (any (is_earlier l) w.logs)) [
      | inl behind ↦
          let same : (waiting, record w { logs = update_log l.name (postpone_log c) w.logs })
              ≡ out =
            cc (rw (found, waits, behind) at goes) in
          inl (ap (λ o. o.1.erp) (sym same), ap (λ o. o.1.documents) (sym same))
      | inr first ↦ inr (waits, (any-false (is_earlier l) w.logs).0 first)
    ]
  ]

  -- What is run of a log that waits, with none before it, on a document that is there.
  pub run-attempt :
      (c : Call) (n : Name) (w : World E) {l : Log} {doc : Document}
      → find_log n w.logs ≡ some l
      → is_waiting l.status ≡ true
      → any (is_earlier l) w.logs ≡ false
      → find_document l.reference_doctype l.reference_name w.documents ≡ some doc
      → run api c n w ≡ ok (settle api c l w (operate api l.operation l.payload doc w.erp))
  unfolding run run_found run_log attempt
  run-attempt c n w found waits first there = rw (found, waits, first, there) refl

  no_forward_enqueues :
      (c : Call) (op : Operation) (p : Payload) (doc : Document) (w : World E)
      (o : Option Operation)
      → has_forward doc o w.logs ≡ false
      → queue_reversal api c op p doc w o ≡ enqueue api c op p doc w
  unfolding queue_reversal
  no_forward_enqueues c op p doc w none h = refl
  no_forward_enqueues c op p doc w (some forward) h = rw h refl

  -- Where postings are queued, no posting that this one would reverse is to come, no other posting
  -- for the document waits and the log's name is new: if posting at once goes through, queueing it
  -- goes through with the documents and ERPNext untouched, and running the queued log then leaves
  -- the documents and ERPNext that posting at once leaves.
  pub dispatch-run :
      (c c' : Call) (op : Operation) (p : Payload) (doc : Document) (w now : World E)
      → c.wms_erp_sync_job || not (is_queued_mode (mode c doc.warehouse)) ≡ false
      → has_forward doc (reverses op) w.logs ≡ false
      → find_log (c.log_name (length w.logs)) w.logs ≡ none
      → any (is_earlier (new_log c op doc p (length w.logs))) w.logs ≡ false
      → find_document doc.doctype doc.name w.documents ≡ some doc
      → dispatch api (record c { wms_erp_sync_job = true }) (some op) p doc w ≡ ok now
      → (put : World E) × (later : World E) × (dispatch api c (some op) p doc w ≡ ok put)
        × (put.erp ≡ w.erp)
        × (put.documents ≡ w.documents)
        × (run api c' (c.log_name (length w.logs)) put ≡ ok (now_at done, later))
        × (later.erp ≡ now.erp)
        × (later.documents ≡ now.documents)
  unfolding dispatch inline enqueue settle new_log
  dispatch-run c c' op p doc w now later_mode no_forward fresh first there at_once =
      let new = new_log c op doc p (length w.logs) in
      let w1 : World E = record w { logs = w.logs ++ new ∷ [] } in
      let (posted, posts, ends) =
        >>=-eq-ok (operate api op p doc w.erp)
          (λ x. ok (record w { documents = save_document x.0 w.documents; erp = x.1 })) {b = now}
          at_once in
      let same : record w { documents = save_document posted.0 w.documents; erp = posted.1 } ≡ now =
        cc ends in
      (
        w1,
        record w1 {
          documents = save_document posted.0 w.documents;
          erp = posted.1;
          logs = update_log new.name (finish_log c') w1.logs;
        },
        rw (later_mode, no_forward_enqueues c op p doc w (reverses op) no_forward) refl,
        refl,
        refl,
        rw
            (
              run-attempt c' (c.log_name (length w.logs)) w1 {l = new} {doc = doc}
                  (find_log-append new.name w.logs new fresh refl) refl
                  (any-append (is_earlier new) w.logs new first (not_before_itself new)) there,
              posts,
            )
            refl,
        ap (λ x. x.erp) same,
        ap (λ x. x.documents) same,
      )
