-- ===== src/Tests/ErpQueue.antt =====
-- The queue of frappe_wms/services/erp_sync_queue.py, at concrete inputs.
use frappe_ewm.Base.{
  All, [], arith, err, false, none, ok, pos, refl, some, true, ℕ, ◌+◌, ◌∷◌, ◌≡◌, ◌⊎◌,
}
use frappe_ewm.ErpQueue.History.{Reaches, history-LaterLogs, no_call, one_more, ran_one}
use frappe_ewm.ErpQueue.Inline.{dispatch-run, run-no_overtaking}
use frappe_ewm.ErpQueue.Logs.{
  find_document, find_log, is_earlier, is_waiting, mode, new_log, postpone_log, save_document,
  update_log,
}
use frappe_ewm.ErpQueue.Operations.{operate, post_goods_issue, post_posting_change, write_entry}
use frappe_ewm.ErpQueue.Order.{LaterLogs}
use frappe_ewm.ErpQueue.Queue.{Outcome, dispatch, inline, now_at, run, run_found, run_log, waiting}
use frappe_ewm.ErpQueue.Refused.{RefusedLog, run_refused}
use frappe_ewm.ErpQueue.Types.{
  Call, Document, ErpNext, Log, Payload, World, done, failed, goods_issue, goods_receipt,
  posting_change, queued_with_retry, refused,
}

abbrev posts : ErpNext ℕ
posts = record {
  sync_goods_receipt = λ d e. ok (d, e + 1);
  reverse_goods_receipt = λ d e. ok (d, e);
  sync_goods_issue = λ d e. err (refused 7);
  reverse_goods_issue = λ d e. ok (d, e);
  sync_posting_change = λ d e. ok (40, e + 1);
  sync_stock_adjustment = λ d e. ok (41, e + 1);
  reverse_stock_adjustment = λ d e. ok (d, e);
  create_quality_inspection = λ d q e. ok (42, e);
  sync_quality_inspection = λ d p q e. ok (43, e);
  sync_kitting_order = λ d p e. ok (44, e);
  sync_work_order = λ d e. ok (d, e);
  sync_over_difference = λ d e. ok (d, e);
  sync_count = λ d r e. ok (45, 0, e);
}

abbrev change : Document
change = record {
  doctype = 1;
  name = 2;
  warehouse = 3;
  docstatus = 1;
  items = [];
  passed_quantity = pos 0;
  failed_quantity = pos 0;
  erpnext_stock_entry = 0;
  erpnext_quality_inspection = 0;
  erpnext_gain_stock_entry = [];
  erpnext_loss_stock_entry = [];
}

abbrev no_payload : Payload
no_payload = record { consumed = none; rows = none }

abbrev call_at : ℕ → Call
call_at time = record {
  now = time;
  wms_erp_sync_job = false;
  erp_sync_mode = λ w. some queued_with_retry;
  log_name = λ n. n + 100;
  traceback = λ e. 9;
  has_role = true;
}

abbrev start : World ℕ
start = record { documents = change ∷ []; logs = []; erp = 5 }

abbrev issue_log : Log
issue_log = new_log (call_at 10) goods_issue change no_payload 0

abbrev issued : World ℕ
issued = record { documents = change ∷ []; logs = issue_log ∷ []; erp = 5 }

abbrev receipt_log : Log
receipt_log = new_log (call_at 20) goods_receipt change no_payload 1

abbrev behind : World ℕ
behind = record { documents = change ∷ []; logs = issue_log ∷ receipt_log ∷ []; erp = 5 }

abbrev kept_waiting : World ℕ
kept_waiting = record behind { logs = issue_log ∷ postpone_log (call_at 30) receipt_log ∷ [] }

run-behind : run posts (call_at 30) 101 behind ≡ ok (waiting, kept_waiting)
unfolding run run_found run_log find_log is_earlier update_log new_log postpone_log
run-behind = refl

run-no_overtaking_example :
    ((kept_waiting.erp ≡ behind.erp) × (kept_waiting.documents ≡ behind.documents))
    ⊎ ((is_waiting receipt_log.status ≡ true)
        × All (λ e. is_earlier receipt_log e ≡ false) behind.logs)
unfolding find_log new_log
run-no_overtaking_example = run-no_overtaking posts (call_at 30) 101 behind refl run-behind

-- The goods issue is refused, and the receipt after it waits.
run_refused_example :
    (out : World ℕ) × (run posts (call_at 30) 100 behind ≡ ok (now_at failed, out))
    × (out.documents ≡ behind.documents)
    × (out.erp ≡ 5)
    × (m : Log) × (find_log 100 out.logs ≡ some m)
    × RefusedLog 30 issue_log m
    × (find_log 101 out.logs ≡ some receipt_log)
    × (end : Outcome × World ℕ) × (run posts (call_at 40) 101 out ≡ ok end)
    × (end.1.documents ≡ behind.documents)
    × (end.1.erp ≡ 5)
unfolding find_log new_log is_earlier find_document operate post_goods_issue
run_refused_example =
    run_refused posts (call_at 30) (call_at 40) 100 101 behind refl refl refl refl refl refl refl
      refl (omega arith)

abbrev posted_now : World ℕ
posted_now = record { documents = write_entry 40 change ∷ []; logs = []; erp = 6 }

dispatch-run_example :
    (put : World ℕ) × (later : World ℕ) × (dispatch posts
        (call_at 10)
        (some posting_change)
        no_payload
        change
        start
      ≡ ok put)
    × (put.erp ≡ start.erp)
    × (put.documents ≡ start.documents)
    × (run posts (call_at 12) 100 put ≡ ok (now_at done, later))
    × (later.erp ≡ posted_now.erp)
    × (later.documents ≡ posted_now.documents)
unfolding mode find_log dispatch inline operate post_posting_change save_document find_document
    write_entry
dispatch-run_example =
    dispatch-run posts (call_at 10) (call_at 12) posting_change no_payload change start posted_now
      refl refl refl refl refl refl

history_one : Reaches posts behind kept_waiting
history_one = one_more no_call (ran_one (call_at 30) 101 run-behind)

history-LaterLogs_example : LaterLogs behind.logs kept_waiting.logs
history-LaterLogs_example = history-LaterLogs posts history_one
