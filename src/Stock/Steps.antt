-- ===== src/Stock/Steps.antt =====
-- The steps of a posting that is not refused (`post_entries` of frappe_wms/services/stock.py), taken
-- apart once for every proof about it.
use frappe_ewm.Base.{
  >>=-eq-ok, List, Name, Result, [], any, arith, eqb_ℤ, false, length, ltb, not, ok, pos, throw_if,
  throw_if-eq-ok, ℕ, ◌&&◌, ◌++◌, ◌>>=◌, ◌>>◌, ◌∙◌, ◌∷◌, ◌≡◌,
}
use frappe_ewm.Stock.Balance.{upsert_balance, upserted}
use frappe_ewm.Stock.Measure.{recompute_all, recompute_measurements}
use frappe_ewm.Stock.Owner.{owner_stock_exists, resolve_owner}
use frappe_ewm.Stock.Posting.{
  Reference, insert_ledger, ledger_entry, post_all, post_new, post_one, resolve_all, total_quantity,
  touched_hus, wrong_serial,
}
use frappe_ewm.Stock.Types.{Db, Entry, Env, Error, LedgerEntry, serial_quantity, unbalanced}

recompute_one-balances :
    (env : Env) (n : Name) (db : Db) {db' : Db}
    → recompute_measurements env n db ≡ ok db'
    → (db'.balances ≡ db.balances) × (db'.ledger ≡ db.ledger)
unfolding recompute_measurements
recompute_one-balances env n db h = ground arith

recompute_all-balances :
    (env : Env) (ns : List Name) (db : Db) {db' : Db}
    → recompute_all env ns db ≡ ok db'
    → (db'.balances ≡ db.balances) × (db'.ledger ≡ db.ledger)
unfolding recompute_all
recompute_all-balances env [] db h = ground arith
recompute_all-balances env (n ∷ ns) db {db'} h =
    let (db1, one, rest) =
      >>=-eq-ok (recompute_measurements env n db) (λ d. recompute_all env ns d) {b = db'} h in
    let (b1, l1) = recompute_one-balances env n db one in
    let (b2, l2) = recompute_all-balances env ns db1 rest in (b2 ∙ b1, l2 ∙ l1)

pub resolve_owner-balances :
    (e : Entry) (db : Db) {out : Entry × Db}
    → resolve_owner e db ≡ ok out
    → (out.1.balances ≡ db.balances) × (out.1.ledger ≡ db.ledger)
unfolding resolve_owner owner_stock_exists
resolve_owner-balances e db h = ground arith

resolve_all-balances :
    (es : List Entry) (db : Db) {out : List Entry × Db}
    → resolve_all es db ≡ ok out
    → (out.1.balances ≡ db.balances) × (out.1.ledger ≡ db.ledger)
unfolding resolve_all
resolve_all-balances [] db h = ground arith
resolve_all-balances (e ∷ es) db {out} h =
    let (o1, one, rest) =
      >>=-eq-ok (resolve_owner e db) (λ o. resolve_all es o.1 >>= λ p. ok (o.0 ∷ p.0, p.1))
        {b = out} h in
    let (o2, all_done, last) =
      >>=-eq-ok (resolve_all es o1.1) (λ p. ok (o1.0 ∷ p.0, p.1)) {b = out} rest in
    let (b1, l1) = resolve_owner-balances e db one in
    let (b2, l2) = resolve_all-balances es o1.1 all_done in ground (arith, b1, l1, b2, l2, last)

-- What a new posting that returned has gone through.
pub record PostedNew (env : Env) (es : List Entry) (ref : Reference) (db : Db)
    (out : List Name × Db) : Type 0 where
  pub resolved : List Entry
  pub before : Db
  pub after : Db
  pub balanced : (not (eqb_ℤ (total_quantity es) (pos 0)) && ltb 1 (length es)) ≡ false
  pub resolving : resolve_all es db ≡ ok (resolved, before)
  pub resolved_balances : before.balances ≡ db.balances
  pub resolved_ledger : before.ledger ≡ db.ledger
  pub serials : any wrong_serial resolved ≡ false
  pub posting : post_all env ref 1 resolved before ≡ ok (out.0, after)
  pub measured_balances : out.1.balances ≡ after.balances
  pub measured_ledger : out.1.ledger ≡ after.ledger

post_new_tail : Env → Reference → List Entry × Db → Result Error (List Name × Db)
post_new_tail env ref (resolved, db1) = do
  throw_if (any wrong_serial resolved) serial_quantity
  (created, db2) ← post_all env ref 1 resolved db1
  db3 ← recompute_all env (touched_hus resolved) db2
  ok (created, db3)

pub post_new-steps :
    (env : Env) (es : List Entry) (ref : Reference) (db : Db) {out : List Name × Db}
    → post_new env es ref db ≡ ok out
    → PostedNew env es ref db out
unfolding post_new post_new_tail
post_new-steps env es ref db {out} h =
    let (balanced, h1) =
      throw_if-eq-ok _ unbalanced (resolve_all es db >>= post_new_tail env ref) {b = out} h in
    let (o1, resolving, h2) = >>=-eq-ok (resolve_all es db) (post_new_tail env ref) {b = out} h1 in
    let (serials, h3) =
      throw_if-eq-ok (any wrong_serial o1.0) serial_quantity
        (post_all env ref 1 o1.0 o1.1 >>= λ p.
          recompute_all env (touched_hus o1.0) p.1 >>= λ d. ok (p.0, d))
        {b = out} h2 in
    let (o2, posting, h4) =
      >>=-eq-ok (post_all env ref 1 o1.0 o1.1)
        (λ p. recompute_all env (touched_hus o1.0) p.1 >>= λ d. ok (p.0, d)) {b = out} h3 in
    let (d, measuring, last) =
      >>=-eq-ok (recompute_all env (touched_hus o1.0) o2.1) (λ d. ok (o2.0, d)) {b = out} h4 in
    let (rb, rl) = resolve_all-balances es db resolving in
    let (mb, ml) = recompute_all-balances env (touched_hus o1.0) o2.1 measuring in
    record {
      resolved = o1.0;
      before = o1.1;
      after = o2.1;
      balanced = balanced;
      resolving = resolving;
      resolved_balances = rb;
      resolved_ledger = rl;
      serials = serials;
      posting = posting ∙ cc last;
      measured_balances = cc (mb, last);
      measured_ledger = cc (ml, last);
    }

-- What is left when an upsert is not refused.
upsert-ok :
    (env : Env) (e : Entry) (db : Db) {db' : Db}
    → upsert_balance env e db ≡ ok db'
    → db' ≡ upserted env e db
upsert-ok env e db h = unfold upsert_balance in ground arith

-- A ledger entry that is inserted adds its quantity under its name.
insert_ledger-ok :
    (l : LedgerEntry) (db : Db) {db' : Db}
    → insert_ledger l db ≡ ok db'
    → db' ≡ record db { ledger = db.ledger ++ l ∷ [] }
insert_ledger-ok l db h = unfold insert_ledger in ground arith

pub post_one-ok :
    (env : Env) (ref : Reference) (seq : ℕ) (e : Entry) (db : Db) {db' : Db}
    → post_one env ref seq e db ≡ ok db'
    → db' ≡ record (upserted env e db) {
      ledger = (upserted env e db).ledger ++ ledger_entry env ref seq e (upserted env e db) ∷ [];
    }
post_one-ok env ref seq e db {db'} h =
    let (db1, up, ins) =
      >>=-eq-ok (upsert_balance env e db) (λ d. insert_ledger (ledger_entry env ref seq e d) d)
        {b = db'} (unfold post_one in h) in
    rw (← upsert-ok env e db up) (insert_ledger-ok (ledger_entry env ref seq e db1) db1 ins)

pub post_one-upsert :
    (env : Env) (ref : Reference) (seq : ℕ) (e : Entry) (db : Db) {db' : Db}
    → post_one env ref seq e db ≡ ok db'
    → (d : Db) × (upsert_balance env e db ≡ ok d)
post_one-upsert env ref seq e db {db'} h =
    let (db1, up, ins) =
      >>=-eq-ok (upsert_balance env e db) (λ d. insert_ledger (ledger_entry env ref seq e d) d)
        {b = db'} (unfold post_one in h) in
    (db1, up)
