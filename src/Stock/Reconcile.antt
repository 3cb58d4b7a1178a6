-- ===== src/Stock/Reconcile.antt =====
-- The balances of frappe_wms/services/stock.py are a projection of its ledger: a posting adds to a
-- row exactly what it adds to the ledger under the row's name.
use frappe_ewm.Base.{
  +ℤ_assoc, +ℤ_comm, +ℤ_zero, List, Name, Option-cases, [], arith, if◌then◌else◌, inl, inr, ok, pos,
  sym, ℕ, ℤ, ◌++◌, ◌+ℤ◌, ◌==◌, ◌∙◌, ◌∷◌, ◌≡◌,
}
use frappe_ewm.Stock.Balance.{merge_dates, moved, new_balance, target_doc, upsert_doc, upserted}
use frappe_ewm.Stock.Keeps.{post_entries-keeps}
use frappe_ewm.Stock.Naming.{entry_name}
use frappe_ewm.Stock.Posting.{Reference, ledger_entry, post_entries, post_one}
use frappe_ewm.Stock.Rows.{find-save, find_balance, find_balance-name, quantity_of}
use frappe_ewm.Stock.Steps.{post_one-ok}
use frappe_ewm.Stock.Types.{Db, Entry, Env, LedgerEntry}

-- What a list of entries books under the name `n`.
abbrev pub booked : Env → Name → List Entry → ℤ
booked env n [] = pos 0
booked env n (e ∷ es) = (if entry_name env e == n then e.quantity else pos 0) +ℤ booked env n es

-- What the ledger holds under the name `n`.
abbrev pub ledger_quantity : Env → Name → List LedgerEntry → ℤ
ledger_quantity env n [] = pos 0
ledger_quantity env n (l ∷ ls) =
    (if entry_name env l.posted == n then l.posted.quantity else pos 0) +ℤ ledger_quantity env n ls

-- Every row holds the sum of its ledger entries, and a name with no row has a sum of zero.
pub record IsReconciled (env : Env) (db : Db) : Type 0 where
  pub at_name : (n : Name) → quantity_of n db.balances ≡ ledger_quantity env n db.ledger

IsReconciled-same :
    (env : Env) (db db' : Db)
    → db'.balances ≡ db.balances
    → db'.ledger ≡ db.ledger
    → IsReconciled env db
    → IsReconciled env db'
IsReconciled-same env db db' b l r = record { at_name = λ n. rw (b, l) (r.at_name n) }

ledger_quantity-append :
    (env : Env) (n : Name) (ls : List LedgerEntry) (l : LedgerEntry)
    → ledger_quantity env n (ls ++ l ∷ [])
      ≡ ledger_quantity env n ls
        +ℤ (if entry_name env l.posted == n then l.posted.quantity else pos 0)
ledger_quantity-append env n [] l = +ℤ_comm _ (pos 0)
ledger_quantity-append env n (x ∷ ls) l =
    rw (ledger_quantity-append env n ls l) (sym (+ℤ_assoc _ _ _))

-- The row that is written keeps the name of the entry.
pub target_doc-name :
    (env : Env) (e : Entry) (db : Db) → (target_doc env e db).name ≡ entry_name env e
unfolding upsert_doc new_balance merge_dates
target_doc-name env e db = elim (Option-cases (find_balance (entry_name env e) db.balances)) [
  | inl fresh ↦ unfold target_doc in rw fresh
  | inr (b, found) ↦
      unfold target_doc in rw found (find_balance-name (entry_name env e) db.balances found)
]

pub target_doc-quantity :
    (env : Env) (e : Entry) (db : Db)
    → (target_doc env e db).quantity ≡ quantity_of (entry_name env e) db.balances
unfolding upsert_doc new_balance merge_dates quantity_of
target_doc-quantity env e db = unfold target_doc in ground arith

-- A successful upsert moves the row of the entry by the entry's quantity and no other row.
upserted-quantity :
    (env : Env) (e : Entry) (db : Db) (n : Name)
    → quantity_of n (upserted env e db).balances
      ≡ quantity_of n db.balances +ℤ (if entry_name env e == n then e.quantity else pos 0)
unfolding upserted quantity_of moved
upserted-quantity env e db n = ground (
  arith,
  find-save n (moved env e.quantity (target_doc env e db)) db.balances,
  target_doc-name env e db,
  target_doc-quantity env e db,
  +ℤ_zero (quantity_of n db.balances),
)

-- One posting keeps the rows and the ledger in step.
post_one-IsReconciled :
    (env : Env) (ref : Reference) (seq : ℕ) (e : Entry) (db : Db) {db' : Db}
    → IsReconciled env db
    → post_one env ref seq e db ≡ ok db'
    → IsReconciled env db'
unfolding ledger_entry upserted
post_one-IsReconciled env ref seq e db r h = rw (post_one-ok env ref seq e db h) (record {
  at_name = λ n. upserted-quantity env e db n ∙ rw (r.at_name n, ledger_quantity-append);
})

-- Whatever is posted, and whether it is new or a repetition, every balance row still holds the sum
-- of its ledger entries, if it did before.
pub post_entries-IsReconciled :
    (env : Env) (es : List Entry) (ref : Reference) (db : Db) {out : List Name × Db}
    → IsReconciled env db
    → post_entries env es ref db ≡ ok out
    → IsReconciled env out.1
post_entries-IsReconciled env es ref db =
    post_entries-keeps (IsReconciled env) env
      (λ ref seq e db db'. post_one-IsReconciled env ref seq e db) (IsReconciled-same env) es ref db

pub post_one-quantity :
    (env : Env) (ref : Reference) (seq : ℕ) (e : Entry) (db : Db) {db' : Db} (n : Name)
    → post_one env ref seq e db ≡ ok db'
    → quantity_of n db'.balances
      ≡ quantity_of n db.balances +ℤ (if entry_name env e == n then e.quantity else pos 0)
post_one-quantity env ref seq e db n h =
    rw (post_one-ok env ref seq e db h) (upserted-quantity env e db n)
