-- ===== src/ErpQueue/Types.antt =====
-- The records of frappe_wms/services/erp_sync_queue.py: the rows of `WMS ERP Sync Log`, and the fields
-- of a WMS document that its postings read and write.
use frappe_ewm.Base.{Bool, List, Name, Option, Result, ℕ, ℤ}

-- The keys of `OPERATIONS`.
pub data Operation : Type 0 where
  goods_receipt goods_receipt_reversal goods_issue goods_issue_reversal : Operation
  posting_change stock_adjustment stock_adjustment_reversal : Operation
  quality_inspection kitting_order work_order_transfer over_difference count_rows : Operation

pub data Status : Type 0 where
  queued running failed done cancelled : Status

-- `WMS Warehouse`.`erp_sync_mode`
pub data SyncMode : Type 0 where
  synchronous queued_with_retry : SyncMode

-- The keyword arguments that a log keeps as JSON.
pub record Payload : Type 0 where
  pub consumed : Option (List Name)
  pub rows : Option (List Name)

pub record Document : Type 0 where
  pub doctype : Name
  pub name : Name
  pub warehouse : Name
  pub docstatus : ℕ
  -- the names of the rows of `items`
  pub items : List Name
  pub passed_quantity : ℤ
  pub failed_quantity : ℤ
  pub erpnext_stock_entry : Name
  pub erpnext_quality_inspection : Name
  -- the names that the fields hold, joined by ", "
  pub erpnext_gain_stock_entry : List Name
  pub erpnext_loss_stock_entry : List Name

pub record Log : Type 0 where
  pub name : Name
  pub operation : Operation
  pub status : Status
  pub warehouse : Name
  pub reference_doctype : Name
  pub reference_name : Name
  pub payload : Payload
  pub creation : ℕ
  pub modified : ℕ
  pub attempts : ℕ
  pub next_retry_at : Option ℕ
  pub completed_at : Option ℕ
  pub last_error : Name

pub data Error : Type 0 where
  unknown_operation not_found not_retriable not_permitted : Error
  -- what ERPNext raises
  refused : Name → Error

-- The tables: the documents, the logs in the order of creation, and ERPNext's own.
pub record World (E : Type 0) : Type 0 where
  pub documents : List Document
  pub logs : List Log
  pub erp : E

-- What a call reads and does not write. Times are in minutes.
pub record Call : Type 0 where
  pub now : ℕ
  pub wms_erp_sync_job : Bool
  pub erp_sync_mode : Name → Option SyncMode
  pub log_name : ℕ → Name
  pub traceback : Error → Name
  -- one of the roles that `require_role` asks for
  pub has_role : Bool

-- The calls of frappe_wms/services/erpnext_sync.py, and `_create_erpnext_quality_inspection` of
-- frappe_wms/services/quality.py: each makes documents in ERPNext. Those that return no name may write
-- to the document themselves.
pub record ErpNext (E : Type 0) : Type 0 where
  pub sync_goods_receipt : Document → E → Result Error (Document × E)
  pub reverse_goods_receipt : Document → E → Result Error (Document × E)
  pub sync_goods_issue : Document → E → Result Error (Document × E)
  pub reverse_goods_issue : Document → E → Result Error (Document × E)
  pub sync_posting_change : Document → E → Result Error (Name × E)
  pub sync_stock_adjustment : Document → E → Result Error (Name × E)
  pub reverse_stock_adjustment : Document → E → Result Error (Document × E)
  pub create_quality_inspection : Document → ℤ → E → Result Error (Name × E)
  pub sync_quality_inspection : Document → ℤ → ℤ → E → Result Error (Name × E)
  pub sync_kitting_order : Document → Option (List Name) → E → Result Error (Name × E)
  pub sync_work_order : Document → E → Result Error (Document × E)
  pub sync_over_difference : Document → E → Result Error (Document × E)
  pub sync_count : Document → Option (List Name) → E → Result Error (Name × Name × E)
