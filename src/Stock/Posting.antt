-- ===== src/Stock/Posting.antt =====
-- `post_entries` of frappe_wms/services/stock.py: the one function that changes stock. The row locks
-- that it takes first order concurrent requests and change no data.
use frappe_ewm.Base.{
  Bool, List, Name, Result, [], abs_ℤ, any, contains, eqb_ℤ, err, false, from_option, if◌then◌else◌,
  is_set, keep, length, ltb, map, not, ok, one_unit, pos, throw_if, true, ℕ, ℤ, ◌&&◌, ◌++◌, ◌+ℤ◌,
  ◌+◌, ◌==◌, ◌>>=◌, ◌>>◌, ◌∷◌,
}
use frappe_ewm.Stock.Balance.{upsert_balance}
use frappe_ewm.Stock.Measure.{recompute_all}
use frappe_ewm.Stock.Owner.{resolve_owner}
use frappe_ewm.Stock.Types.{
  Db, Entry, Env, Error, Key, LedgerEntry, duplicate_entry, serial_quantity, unbalanced,
}

-- `sum(flt(x["quantity"]) for x in entries)`
unfoldable pub total_quantity : List Entry → ℤ
total_quantity [] = pos 0
total_quantity (e ∷ es) = e.quantity +ℤ total_quantity es

abbrev pub key_eq : Key → Key → Bool
key_eq [] [] = true
key_eq [] (b ∷ k) = false
key_eq (a ∷ j) [] = false
key_eq (a ∷ j) (b ∷ k) = (a == b) && key_eq j k

-- `key like "<prefix>:%"`
unfoldable pub key_below : Key → Key → Bool
key_below [] [] = false
key_below [] (b ∷ k) = true
key_below (a ∷ j) [] = false
key_below (a ∷ j) (b ∷ k) = (a == b) && key_below j k

-- `f"{idempotency_key}:{seq}"`
abbrev pub entry_key : Key → ℕ → Key
entry_key key seq = key ++ seq ∷ []

unfoldable pub key_exists : Key → List LedgerEntry → Bool
key_exists key = any λ l. key_eq l.idempotency_key key

unfoldable pub names_below : Key → List LedgerEntry → List Name
names_below key ledger = map (λ l. l.name) (keep (λ l. key_below key l.idempotency_key) ledger)

-- `for e in entries: _resolve_owner(e)`
unfoldable pub resolve_all : List Entry → Db → Result Error (List Entry × Db)
resolve_all [] db = ok ([], db)
resolve_all (e ∷ es) db = do
  (e', db1) ← resolve_owner e db
  (es', db2) ← resolve_all es db1
  ok (e' ∷ es', db2)

-- A serial number that would move more or less than one unit.
unfoldable pub wrong_serial : Entry → Bool
wrong_serial e = is_set e.place.serial_no && not (eqb_ℤ (abs_ℤ e.quantity) one_unit)

-- The arguments of a posting that its ledger entries repeat.
pub record Reference : Type 0 where
  pub reference_doctype : Name
  pub reference_name : Name
  pub idempotency_key : Key
  pub warehouse_task : Name
  pub device : Name

unfoldable pub ledger_entry : Env → Reference → ℕ → Entry → Db → LedgerEntry
ledger_entry env ref seq e db = record {
  name = env.ledger_name (length db.ledger);
  posted = e;
  posting_datetime = from_option env.now e.posting_datetime;
  reference_doctype = ref.reference_doctype;
  reference_name = ref.reference_name;
  warehouse_task = ref.warehouse_task;
  idempotency_key = entry_key ref.idempotency_key seq;
  posting_user = env.session_user;
  posting_device = ref.device;
}

-- `sle.insert()`; the field `idempotency_key` is unique.
unfoldable pub insert_ledger : LedgerEntry → Db → Result Error Db
insert_ledger l db =
    if key_exists l.idempotency_key db.ledger
    then err duplicate_entry
    else ok (record db { ledger = db.ledger ++ l ∷ [] })

-- One round of the loop over `enumerate(entries, 1)`.
unfoldable pub post_one : Env → Reference → ℕ → Entry → Db → Result Error Db
post_one env ref seq e db = do
  db' ← upsert_balance env e db
  insert_ledger (ledger_entry env ref seq e db') db'

unfoldable pub post_all : Env → Reference → ℕ → List Entry → Db → Result Error (List Name × Db)
post_all env ref seq [] db = ok ([], db)
post_all env ref seq (e ∷ es) db = do
  db1 ← post_one env ref seq e db
  (created, db2) ← post_all env ref (seq + 1) es db1
  ok (env.ledger_name (length db.ledger) ∷ created, db2)

-- `{e.get("handling_unit") for e in entries if e.get("handling_unit")}`
unfoldable pub touched_hus : List Entry → List Name
touched_hus [] = []
touched_hus (e ∷ es) =
    let rest = touched_hus es in
    let hu = e.place.handling_unit in
    if is_set hu && not (contains hu rest) then hu ∷ rest else rest

-- A new posting, after the replay test.
unfoldable pub post_new : Env → List Entry → Reference → Db → Result Error (List Name × Db)
post_new env entries ref db = do
  throw_if (not (eqb_ℤ (total_quantity entries) (pos 0)) && ltb 1 (length entries)) unbalanced
  (resolved, db1) ← resolve_all entries db
  throw_if (any wrong_serial resolved) serial_quantity
  (created, db2) ← post_all env ref 1 resolved db1
  db3 ← recompute_all env (touched_hus resolved) db2
  ok (created, db3)

unfoldable pub post_entries : Env → List Entry → Reference → Db → Result Error (List Name × Db)
post_entries env entries ref db =
    if key_exists (entry_key ref.idempotency_key 1) db.ledger
    then ok (names_below ref.idempotency_key db.ledger, db)
    else post_new env entries ref db
