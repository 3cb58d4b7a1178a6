-- ===== src/Concurrency.antt =====
-- frappe_wms/services/concurrency.py: a whole API call that the database aborts as the victim of a
-- deadlock is run again from scratch.
pub mod Retry
use frappe_ewm.Base.{Bool, List, Name, [], false, if◌then◌else◌, suc, true, zero, ℕ, ◌-◌, ◌||◌}

-- How an attempt at an API call ends: it returns a value, the database aborts it (QueryDeadlockError,
-- QueryTimeoutError), or it raises another error.
pub data Outcome (A : Type 0) : Type 0 where
  returned : A → Outcome A
  aborted : Outcome A
  raised : Name → Outcome A

-- What a request holds: the tables as its transaction sees them, and the fields of `frappe.local` and
-- `frappe.flags` that the wrapper uses.
pub record Request (S : Type 0) : Type 0 where
  pub tables : S
  pub wms_retry_active : Bool
  pub in_test : Bool
  pub message_log : List Name

-- ATTEMPTS
abbrev pub attempts : ℕ
attempts = 4

module _ {S : Type 0} {A : Type 0} (rollback : S → S)
    (fn : ℕ → Request S → Outcome A × Request S) where
  -- What is done after an attempt that was aborted, before the next one.
  abbrev pub abandon : Request S → Request S
  abandon r = record r { tables = rollback r.tables; message_log = [] }

  -- The attempts from the one numbered `attempt` on, with `left` more after it. The call is a
  -- function of the attempt's number: what the other transactions do then differs.
  unfoldable pub attempt_from : ℕ → ℕ → Request S → Outcome A × Request S
  attempt_from attempt zero r = fn attempt r
  attempt_from attempt (suc left) r =
      let (out, r1) = fn attempt r in
      elim out [
        | aborted ↦ attempt_from (suc attempt) left (abandon r1)
        | returned a ↦ (returned a, r1)
        | raised e ↦ (raised e, r1)
      ]

  -- `wrapper`
  unfoldable pub retry_on_deadlock : Request S → Outcome A × Request S
  retry_on_deadlock r =
      if r.wms_retry_active || r.in_test
      then fn 0 r
      else let (out, r1) = attempt_from 0 (attempts - 1) (record r { wms_retry_active = true }) in
        (out, record r1 { wms_retry_active = false })
