-- ===== src/Stock/Keeps.antt =====
-- The induction behind every invariant of `post_entries` (frappe_wms/services/stock.py): what one
-- posting keeps, a request keeps.
use frappe_ewm.Base.{
  >>=-eq-ok, Bool-cases, List, Name, Result, [], err, inl, inr, length, ok, subst, ℕ, ◌+◌, ◌>>=◌,
  ◌∷◌, ◌≡◌,
}
use frappe_ewm.Stock.Posting.{
  Reference, entry_key, key_exists, post_all, post_entries, post_new, post_one,
}
use frappe_ewm.Stock.Steps.{post_new-steps}
use frappe_ewm.Stock.Types.{Db, Entry, Env, Error}

-- The state that a call leaves, or `db` if it is refused.
abbrev result_db : {A : Type 0} → Db → Result Error (A × Db) → Db
result_db db (ok out) = out.1
result_db db (err c) = db

module _ (I : Db → Type 0) (env : Env)
    (step : (ref : Reference) (seq : ℕ) (e : Entry) (db db' : Db)
      → I db
      → post_one env ref seq e db ≡ ok db'
      → I db')
    (same : (db db' : Db)
      → db'.balances ≡ db.balances
      → db'.ledger ≡ db.ledger
      → I db
      → I db') where
  post_all-keeps :
      (ref : Reference) (seq : ℕ) (es : List Entry) (db : Db) {out : List Name × Db}
      → I db
      → post_all env ref seq es db ≡ ok out
      → I out.1
  unfolding post_all
  post_all-keeps ref seq [] db r h = subst (λ o. I (result_db db o)) h r
  post_all-keeps ref seq (e ∷ es) db {out} r h =
      let (db1, one, rest) =
        >>=-eq-ok (post_one env ref seq e db)
          (λ d. post_all env ref (seq + 1) es d >>= λ o.
            ok (env.ledger_name (length db.ledger) ∷ o.0, o.1))
          {b = out} h in
      let (o, all_posted, last) =
        >>=-eq-ok (post_all env ref (seq + 1) es db1)
          (λ o. ok (env.ledger_name (length db.ledger) ∷ o.0, o.1)) {b = out} rest in
      subst (λ o. I (result_db db o)) last
        (post_all-keeps ref (seq + 1) es db1 (step ref seq e db db1 r one) all_posted)

  post_new-keeps :
      (es : List Entry) (ref : Reference) (db : Db) {out : List Name × Db}
      → I db
      → post_new env es ref db ≡ ok out
      → I out.1
  post_new-keeps es ref db {out} r h =
      let p = post_new-steps env es ref db h in
      same p.after out.1 p.measured_balances p.measured_ledger (
        post_all-keeps ref 1 p.resolved p.before
          (same db p.before p.resolved_balances p.resolved_ledger r) p.posting)

  pub post_entries-keeps :
      (es : List Entry) (ref : Reference) (db : Db) {out : List Name × Db}
      → I db
      → post_entries env es ref db ≡ ok out
      → I out.1
  unfolding post_entries
  post_entries-keeps es ref db {out} r h =
      elim (Bool-cases (key_exists (entry_key ref.idempotency_key 1) db.ledger)) [
        | inl old ↦ subst (λ o. I (result_db db o)) (rw old at h) r
        | inr fresh ↦ post_new-keeps es ref db r (rw fresh at h)
      ]
