-- ===== src/ErpQueue/Operations.antt =====
-- The operations of frappe_wms/services/erp_sync_queue.py: one function per kind of posting, which
-- writes the names of ERPNext's documents back onto the WMS document.
use frappe_ewm.Base.{
  List, Name, Option, Result, [], contains, if◌then◌else◌, is_set, keep, none, not, ok, some, ◌++◌,
  ◌==◌, ◌>>=◌, ◌∷◌,
}
use frappe_ewm.ErpQueue.Types.{
  Document, ErpNext, Error, Operation, Payload, count_rows, goods_issue, goods_issue_reversal,
  goods_receipt, goods_receipt_reversal, kitting_order, over_difference, posting_change,
  quality_inspection, stock_adjustment, stock_adjustment_reversal, work_order_transfer,
}

-- `if se: doc.db_set("erpnext_stock_entry", se)`
unfoldable pub write_entry : Name → Document → Document
write_entry se doc = if is_set se then record doc { erpnext_stock_entry = se } else doc

unfoldable pub write_inspection : Name → Document → Document
write_inspection qi doc = if is_set qi then record doc { erpnext_quality_inspection = qi } else doc

-- `join`: the current names and the new one, blanks left out.
unfoldable pub join : List Name → Name → List Name
join current new = if is_set new then current ++ new ∷ [] else current

-- `[r for r in doc.items if r.name in set(rows)]`
unfoldable pub chosen_rows : Document → Option (List Name) → Option (List Name)
chosen_rows doc none = none
chosen_rows doc (some rows) = some (keep (λ r. contains r rows) doc.items)

module _ {E : Type 0} (api : ErpNext E) where
  unfoldable pub post_goods_receipt : Document → E → Result Error (Document × E)
  post_goods_receipt doc erp =
      if not (doc.docstatus == 1) then ok (doc, erp) else api.sync_goods_receipt doc erp

  unfoldable pub post_goods_issue : Document → E → Result Error (Document × E)
  post_goods_issue doc erp =
      if not (doc.docstatus == 1) then ok (doc, erp) else api.sync_goods_issue doc erp

  unfoldable pub post_posting_change : Document → E → Result Error (Document × E)
  post_posting_change doc erp = do
    (se, erp') ← api.sync_posting_change doc erp
    ok (write_entry se doc, erp')

  unfoldable pub post_stock_adjustment : Document → E → Result Error (Document × E)
  post_stock_adjustment doc erp =
      if is_set doc.erpnext_stock_entry
      then ok (doc, erp)
      else (do (se, erp') ← api.sync_stock_adjustment doc erp; ok (write_entry se doc, erp'))

  unfoldable pub inspect : Document → E → Result Error (Document × E)
  inspect doc erp = if is_set doc.erpnext_quality_inspection then ok (doc, erp) else (do
    (qi, erp') ← api.create_quality_inspection doc doc.failed_quantity erp
    ok (write_inspection qi doc, erp'))

  unfoldable pub post_inspected : Document → E → Result Error (Document × E)
  post_inspected doc erp = if is_set doc.erpnext_stock_entry then ok (doc, erp) else (do
    (se, erp') ← api.sync_quality_inspection doc doc.passed_quantity doc.failed_quantity erp
    ok (write_entry se doc, erp'))

  unfoldable pub post_quality_inspection : Document → E → Result Error (Document × E)
  post_quality_inspection doc erp = do (doc1, erp1) ← inspect doc erp; post_inspected doc1 erp1

  unfoldable pub post_kitting_order :
      Option (List Name) → Document → E → Result Error (Document × E)
  post_kitting_order consumed doc erp =
      if is_set doc.erpnext_stock_entry
      then ok (doc, erp)
      else (do (se, erp') ← api.sync_kitting_order doc consumed erp; ok (write_entry se doc, erp'))

  unfoldable pub post_over_difference : Document → E → Result Error (Document × E)
  post_over_difference doc erp =
      if is_set doc.erpnext_stock_entry then ok (doc, erp) else api.sync_over_difference doc erp

  unfoldable pub post_count_rows : Option (List Name) → Document → E → Result Error (Document × E)
  post_count_rows rows doc erp = do
    (gain, loss, erp') ← api.sync_count doc (chosen_rows doc rows) erp
    ok (
      record doc {
        erpnext_gain_stock_entry = join doc.erpnext_gain_stock_entry gain;
        erpnext_loss_stock_entry = join doc.erpnext_loss_stock_entry loss;
      },
      erp',
    )

  -- `OPERATIONS[operation](doc, **payload)`
  unfoldable pub operate : Operation → Payload → Document → E → Result Error (Document × E)
  operate goods_receipt p doc erp = post_goods_receipt doc erp
  operate goods_receipt_reversal p doc erp = api.reverse_goods_receipt doc erp
  operate goods_issue p doc erp = post_goods_issue doc erp
  operate goods_issue_reversal p doc erp = api.reverse_goods_issue doc erp
  operate posting_change p doc erp = post_posting_change doc erp
  operate stock_adjustment p doc erp = post_stock_adjustment doc erp
  operate stock_adjustment_reversal p doc erp = api.reverse_stock_adjustment doc erp
  operate quality_inspection p doc erp = post_quality_inspection doc erp
  operate kitting_order p doc erp = post_kitting_order p.consumed doc erp
  operate work_order_transfer p doc erp = api.sync_work_order doc erp
  operate over_difference p doc erp = post_over_difference doc erp
  operate count_rows p doc erp = post_count_rows p.rows doc erp
