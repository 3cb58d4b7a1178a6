-- ===== src/Tests/Concurrency.antt =====
-- The retries of frappe_wms/services/concurrency.py, at concrete inputs.
use frappe_ewm.Base.{[], arith, false, if◌then◌else◌, inl, ltb, refl, true, ℕ, ◌+◌, ◌<◌, ◌∷◌, ◌≡◌}
use frappe_ewm.Concurrency.{Outcome, Request, aborted, retry_on_deadlock, returned}
use frappe_ewm.Concurrency.Retry.{RollsBack, is_aborted, retry_on_deadlock-first}
use frappe_ewm.ErpQueue.Queue.{attempt}

abbrev request : Request ℕ
request = record { tables = 7; wms_retry_active = false; in_test = false; message_log = [] }

-- A call that writes, and that the database aborts the first two times.
abbrev call : ℕ → Request ℕ → Outcome ℕ × Request ℕ
call attempt r =
    let wrote = record r { tables = r.tables + 1; message_log = 3 ∷ r.message_log } in
    (if ltb attempt 2 then aborted else returned 5, wrote)

-- The transaction began with 7.
abbrev back : ℕ → ℕ
back tables = 7

always_back : RollsBack back call (record request { wms_retry_active = true })
always_back n h = (refl, refl, refl)

early : (j : ℕ) → j < 2 → is_aborted (call j (record request { wms_retry_active = true })).0 ≡ true
early j h = ground arith

retry_on_deadlock-first_example :
    retry_on_deadlock back call request
    ≡ (returned 5, record request { tables = 8; message_log = 3 ∷ [] })
retry_on_deadlock-first_example =
    retry_on_deadlock-first back call request 2 refl always_back refl (omega arith) early (inl refl)
