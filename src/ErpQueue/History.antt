-- ===== src/ErpQueue/History.antt =====
-- Sequences of calls of frappe_wms/services/erp_sync_queue.py.
use frappe_ewm.Base.{Name, Option, keep, ok, take, ◌≡◌}
use frappe_ewm.ErpQueue.Calls.{
  dispatch-LaterLogs, retry_each-LaterLogs, retry_now-LaterLogs, run-LaterLogs,
}
use frappe_ewm.ErpQueue.Logs.{is_due}
use frappe_ewm.ErpQueue.Order.{LaterLogs, LaterLogs-refl, LaterLogs-trans}
use frappe_ewm.ErpQueue.Queue.{Outcome, dispatch, retry_due, retry_now, run}
use frappe_ewm.ErpQueue.Types.{Call, Document, ErpNext, Operation, Payload, World}

-- One call that goes through, by whoever makes it and whenever.
pub data Step {E : Type 0} (api : ErpNext E) : World E → World E → Type 0 where
  dispatched :
      (c : Call) (o : Option Operation) (p : Payload) (doc : Document) {w w' : World E}
      → dispatch api c o p doc w ≡ ok w'
      → Step api w w'
  ran_one :
      (c : Call) (n : Name) {w : World E} {out : Outcome × World E}
      → run api c n w ≡ ok out
      → Step api w out.1
  retried_due : (c : Call) {w w' : World E} → retry_due api c w ≡ ok w' → Step api w w'
  retried_now :
      (c : Call) (n : Name) {w : World E} {out : Outcome × World E}
      → retry_now api c n w ≡ ok out
      → Step api w out.1

pub data Reaches {E : Type 0} (api : ErpNext E) : World E → World E → Type 0 where
  no_call : {w : World E} → Reaches api w w
  one_more : {w w1 w2 : World E} → Reaches api w w1 → Step api w1 w2 → Reaches api w w2

module _ {E : Type 0} (api : ErpNext E) where
  Step-LaterLogs : {w w' : World E} → Step api w w' → LaterLogs w.logs w'.logs
  unfolding retry_due
  Step-LaterLogs (dispatched c o p doc {w} goes) = dispatch-LaterLogs api c o p doc w goes
  Step-LaterLogs (ran_one c n {w} goes) = run-LaterLogs api c n w goes
  Step-LaterLogs (retried_due c {w} goes) =
      retry_each-LaterLogs api c (take 200 (keep (is_due c.now) w.logs)) w goes
  Step-LaterLogs (retried_now c n {w} goes) = retry_now-LaterLogs api c n w goes

  -- Through any sequence of calls of the queue that go through, the logs stay in their order with
  -- new ones after them; each keeps its name, its operation, its document and its creation, never
  -- counts its attempts down, and stays as it is once it is done or cancelled.
  pub history-LaterLogs : {w w' : World E} → Reaches api w w' → LaterLogs w.logs w'.logs
  history-LaterLogs {w} no_call = LaterLogs-refl w.logs
  history-LaterLogs {w} {w'} (one_more {w1 = w1} before last) =
      LaterLogs-trans w.logs w1.logs w'.logs (history-LaterLogs before) (Step-LaterLogs last)
