-- ===== src/Stock/Conserve.antt =====
-- What postings of frappe_wms/services/stock.py do to the stock as a whole.
use frappe_ewm.Base.{
  +ℤ_assoc, +ℤ_zero, >>=-eq-ok, Bool-cases, List, List-cases, Name, [], arith, eqb_ℤ, false, inl,
  inr, int_laws, length, ltb, not, ok, pos, ℕ, ℤ, ◌&&◌, ◌+ℤ◌, ◌+◌, ◌<◌, ◌>>=◌, ◌∙◌, ◌∷◌, ◌≡◌,
}
use frappe_ewm.Stock.Balance.{moved, target_doc, upserted}
use frappe_ewm.Stock.Owner.{owner_pool, resolve_from, resolve_owner, source_rows}
use frappe_ewm.Stock.Posting.{
  Reference, entry_key, key_exists, post_all, post_entries, post_new, post_one, resolve_all,
  total_quantity,
}
use frappe_ewm.Stock.Reconcile.{target_doc-name, target_doc-quantity}
use frappe_ewm.Stock.Rows.{find_balance, quantity_of, save_balance}
use frappe_ewm.Stock.Steps.{post_new-steps, post_one-ok}
use frappe_ewm.Stock.Types.{Balance, Db, Entry, Env}

-- The stock of all rows together.
abbrev pub stock_total : List Balance → ℤ
stock_total [] = pos 0
stock_total (b ∷ bs) = b.quantity +ℤ stock_total bs

-- Saving a row replaces what the table held under its name.
total-save :
    (d : Balance) (bs : List Balance)
    → stock_total (save_balance d bs) +ℤ quantity_of d.name bs ≡ stock_total bs +ℤ d.quantity
unfolding save_balance quantity_of find_balance
total-save d [] = omega int_laws
total-save d (b ∷ bs) = grind (int_laws, total-save d bs)

add_to_total : (a b c q : ℤ) → a +ℤ b ≡ c +ℤ (b +ℤ q) → a ≡ c +ℤ q
add_to_total a b c q h = grind int_laws

upserted-total :
    (env : Env) (e : Entry) (db : Db)
    → stock_total (upserted env e db).balances ≡ stock_total db.balances +ℤ e.quantity
unfolding upserted moved
upserted-total env e db =
    let doc = moved env e.quantity (target_doc env e db) in
    add_to_total _ (quantity_of doc.name db.balances) _ _ (
      total-save doc db.balances
      ∙ ground (arith, target_doc-quantity env e db, target_doc-name env e db))

post_one-total :
    (env : Env) (ref : Reference) (seq : ℕ) (e : Entry) (db : Db) {db' : Db}
    → post_one env ref seq e db ≡ ok db'
    → stock_total db'.balances ≡ stock_total db.balances +ℤ e.quantity
post_one-total env ref seq e db h = rw (post_one-ok env ref seq e db h) (upserted-total env e db)

post_all-total :
    (env : Env) (ref : Reference) (seq : ℕ) (es : List Entry) (db : Db) {out : List Name × Db}
    → post_all env ref seq es db ≡ ok out
    → stock_total out.1.balances ≡ stock_total db.balances +ℤ total_quantity es
unfolding post_all total_quantity
post_all-total env ref seq [] db h = ground (arith, +ℤ_zero (stock_total db.balances))
post_all-total env ref seq (e ∷ es) db {out} h =
    let (db1, one, rest) =
      >>=-eq-ok (post_one env ref seq e db)
        (λ d. post_all env ref (seq + 1) es d >>= λ o.
          ok (env.ledger_name (length db.ledger) ∷ o.0, o.1))
        {b = out} h in
    let (o, all_posted, last) =
      >>=-eq-ok (post_all env ref (seq + 1) es db1)
        (λ o. ok (env.ledger_name (length db.ledger) ∷ o.0, o.1)) {b = out} rest in
    ground (
      arith,
      last,
      post_all-total env ref (seq + 1) es db1 all_posted,
      post_one-total env ref seq e db one,
      +ℤ_assoc (stock_total db.balances) e.quantity (total_quantity es),
    )

pub resolve_owner-quantity :
    (e : Entry) (db : Db) {out : Entry × Db}
    → resolve_owner e db ≡ ok out
    → out.0.quantity ≡ e.quantity
unfolding resolve_owner resolve_from
resolve_owner-quantity e db h = elim (List-cases (owner_pool e (source_rows e db.balances))) [
  | inl nothing ↦ ground arith
  | inr (r, rs, pool) ↦ ground arith
]

resolve_all-quantity :
    (es : List Entry) (db : Db) {out : List Entry × Db}
    → resolve_all es db ≡ ok out
    → total_quantity out.0 ≡ total_quantity es
unfolding resolve_all total_quantity
resolve_all-quantity [] db h = ground arith
resolve_all-quantity (e ∷ es) db {out} h =
    let (o1, one, rest) =
      >>=-eq-ok (resolve_owner e db) (λ o. resolve_all es o.1 >>= λ p. ok (o.0 ∷ p.0, p.1))
        {b = out} h in
    let (o2, all_done, last) =
      >>=-eq-ok (resolve_all es o1.1) (λ p. ok (o1.0 ∷ p.0, p.1)) {b = out} rest in
    ground (arith, last, resolve_owner-quantity e db one, resolve_all-quantity es o1.1 all_done)

-- A new posting that goes through moves the stock of all rows together by the sum of the
-- quantities it was given.
post_new-total :
    (env : Env) (es : List Entry) (ref : Reference) (db : Db) {out : List Name × Db}
    → post_new env es ref db ≡ ok out
    → stock_total out.1.balances ≡ stock_total db.balances +ℤ total_quantity es
post_new-total env es ref db h =
    let p = post_new-steps env es ref db h in
    ground (
      arith,
      p.measured_balances,
      p.resolved_balances,
      post_all-total env ref 1 p.resolved p.before p.posting,
      resolve_all-quantity es db p.resolving,
    )

balanced_zero : (t : ℤ) (n : ℕ) → (not (eqb_ℤ t (pos 0)) && ltb 1 n) ≡ false → 1 < n → t ≡ pos 0
balanced_zero t n h two = ground arith

-- A posting of two or more entries that goes through neither creates nor destroys stock.
pub post_entries_conserves :
    (env : Env) (es : List Entry) (ref : Reference) (db : Db) {out : List Name × Db}
    → 1 < length es
    → post_entries env es ref db ≡ ok out
    → stock_total out.1.balances ≡ stock_total db.balances
unfolding post_entries
post_entries_conserves env es ref db {out} two h =
    elim (Bool-cases (key_exists (entry_key ref.idempotency_key 1) db.ledger)) [
      | inl old ↦ cc (rw old at h)
      | inr fresh ↦
          let p = post_new-steps env es ref db (rw fresh at h) in
          post_new-total env es ref db (rw fresh at h)
          ∙ rw (balanced_zero (total_quantity es) (length es) p.balanced two, +ℤ_zero)
    ]
