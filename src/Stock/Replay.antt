-- ===== src/Stock/Replay.antt =====
-- Replays of `post_entries` (frappe_wms/services/stock.py): a request that is sent again.
use frappe_ewm.Base.{
  >>=-eq-ok, List, Name, [], append-nil, append_assoc, arith, false, if◌then◌else◌, length, ok,
  refl, true, ℕ, ◌++◌, ◌+◌, ◌<◌, ◌>>=◌, ◌||◌, ◌∷◌, ◌≡◌,
}
use frappe_ewm.Stock.Balance.{upserted}
use frappe_ewm.Stock.Owner.{resolve_owner}
use frappe_ewm.Stock.Posting.{
  Reference, entry_key, key_below, key_eq, key_exists, ledger_entry, names_below, post_all,
  post_entries, post_one, resolve_all,
}
use frappe_ewm.Stock.Steps.{post_new-steps, post_one-ok}
use frappe_ewm.Stock.Types.{Db, Entry, Env, Key, LedgerEntry}

key_eq_refl : (k : Key) → key_eq k k ≡ true
key_eq_refl [] = refl
key_eq_refl (a ∷ k) = ground (arith, key_eq_refl k)

key_eq-eq : (j k : Key) → key_eq j k ≡ true → j ≡ k
key_eq-eq [] [] h = refl
key_eq-eq [] (b ∷ k) h = cc
key_eq-eq (a ∷ j) [] h = cc
key_eq-eq (a ∷ j) (b ∷ k) h = ground (arith, key_eq-eq j k)

key_below-entry : (k : Key) (seq : ℕ) → key_below k (entry_key k seq) ≡ true
unfolding key_below
key_below-entry [] seq = refl
key_below-entry (a ∷ k) seq = ground (arith, key_below-entry k seq)

key_exists-append :
    (k : Key) (ls : List LedgerEntry) (l : LedgerEntry)
    → key_exists k (ls ++ l ∷ []) ≡ (key_exists k ls || key_eq l.idempotency_key k)
unfolding key_exists
key_exists-append k [] l = ground arith
key_exists-append k (x ∷ ls) l = ground (arith, key_exists-append k ls l)

names_below-append :
    (k : Key) (ls : List LedgerEntry) (l : LedgerEntry)
    → names_below k (ls ++ l ∷ []) ≡ (
        if key_below k l.idempotency_key then names_below k ls ++ l.name ∷ [] else names_below k ls)
unfolding names_below
names_below-append k [] l = ground arith
names_below-append k (x ∷ ls) l = ground (arith, names_below-append k ls l)

-- What one posting adds to the ledger, seen through the key of its request.
post_one-ledger :
    (env : Env) (ref : Reference) (seq : ℕ) (e : Entry) (db : Db) {db' : Db}
    → post_one env ref seq e db ≡ ok db'
    → (names_below ref.idempotency_key db'.ledger
        ≡ names_below ref.idempotency_key db.ledger ++ env.ledger_name (length db.ledger) ∷ [])
      × (key_exists (entry_key ref.idempotency_key seq) db'.ledger ≡ true)
      × ((k : Key) → key_exists k db.ledger ≡ true → key_exists k db'.ledger ≡ true)
unfolding upserted ledger_entry
post_one-ledger env ref seq e db h = rw (post_one-ok env ref seq e db h) (
  rw names_below-append (rw key_below-entry),
  rw key_exists-append (rw key_eq_refl (ground arith)),
  λ k old. rw key_exists-append (ground arith),
)

post_all-ledger :
    (env : Env) (ref : Reference) (seq : ℕ) (es : List Entry) (db : Db) {out : List Name × Db}
    → post_all env ref seq es db ≡ ok out
    → (names_below ref.idempotency_key out.1.ledger
        ≡ names_below ref.idempotency_key db.ledger ++ out.0)
      × ((k : Key) → key_exists k db.ledger ≡ true → key_exists k out.1.ledger ≡ true)
unfolding post_all
post_all-ledger env ref seq [] db h =
    (ground (arith, append-nil (names_below ref.idempotency_key db.ledger)), λ k old. ground arith)
post_all-ledger env ref seq (e ∷ es) db {out} h =
    let (db1, one, rest) =
      >>=-eq-ok (post_one env ref seq e db)
        (λ d. post_all env ref (seq + 1) es d >>= λ o.
          ok (env.ledger_name (length db.ledger) ∷ o.0, o.1))
        {b = out} h in
    let (o, all_posted, last) =
      >>=-eq-ok (post_all env ref (seq + 1) es db1)
        (λ o. ok (env.ledger_name (length db.ledger) ∷ o.0, o.1)) {b = out} rest in
    let (names1, here1, keep1) = post_one-ledger env ref seq e db one in
    let (names2, keep2) = post_all-ledger env ref (seq + 1) es db1 all_posted in
    (
      ground (
        arith,
        names1,
        names2,
        last,
        append_assoc (names_below ref.idempotency_key db.ledger)
            (env.ledger_name (length db.ledger) ∷ []) o.0,
      ),
      λ k old. ground (arith, last, keep2 k, keep1 k old),
    )

-- The first entry of a posting puts its key into the ledger.
post_all-first :
    (env : Env) (ref : Reference) (seq : ℕ) (es : List Entry) (db : Db) {out : List Name × Db}
    → 0 < length es
    → post_all env ref seq es db ≡ ok out
    → key_exists (entry_key ref.idempotency_key seq) out.1.ledger ≡ true
unfolding post_all
post_all-first env ref seq [] db some_entry h = absurd (omega arith)
post_all-first env ref seq (e ∷ es) db {out} some_entry h =
    let (db1, one, rest) =
      >>=-eq-ok (post_one env ref seq e db)
        (λ d. post_all env ref (seq + 1) es d >>= λ o.
          ok (env.ledger_name (length db.ledger) ∷ o.0, o.1))
        {b = out} h in
    let (o, all_posted, last) =
      >>=-eq-ok (post_all env ref (seq + 1) es db1)
        (λ o. ok (env.ledger_name (length db.ledger) ∷ o.0, o.1)) {b = out} rest in
    let (names1, here1, keep1) = post_one-ledger env ref seq e db one in
    let (names2, keep2) = post_all-ledger env ref (seq + 1) es db1 all_posted in
    ground (arith, last, keep2 (entry_key ref.idempotency_key seq) here1)

resolve_all-length :
    (es : List Entry) (db : Db) {out : List Entry × Db}
    → resolve_all es db ≡ ok out
    → length out.0 ≡ length es
unfolding resolve_all
resolve_all-length [] db h = ground arith
resolve_all-length (e ∷ es) db {out} h =
    let (o1, one, rest) =
      >>=-eq-ok (resolve_owner e db) (λ o. resolve_all es o.1 >>= λ p. ok (o.0 ∷ p.0, p.1))
        {b = out} h in
    let (o2, all_done, last) =
      >>=-eq-ok (resolve_all es o1.1) (λ p. ok (o1.0 ∷ p.0, p.1)) {b = out} rest in
    ground (arith, last, resolve_all-length es o1.1 all_done)

-- No row below a key means that its first entry is not there.
unused-first :
    (k : Key) (seq : ℕ) (ls : List LedgerEntry)
    → names_below k ls ≡ []
    → key_exists (entry_key k seq) ls ≡ false
unfolding names_below key_exists
unused-first k seq [] h = refl
unused-first k seq (l ∷ ls) h = ground (
  arith,
  unused-first k seq ls,
  key_eq-eq l.idempotency_key (entry_key k seq),
  key_below-entry k seq,
)

-- A posting of at least one entry that is sent again after it went through, under a key below
-- which nothing was posted before, returns the names of the ledger entries that the first run
-- created, and changes nothing.
pub post_entries_replay :
    (env : Env) (es es' : List Entry) (ref : Reference) (db : Db) {out : List Name × Db}
    → 0 < length es
    → names_below ref.idempotency_key db.ledger ≡ []
    → post_entries env es ref db ≡ ok out
    → post_entries env es' ref out.1 ≡ ok out
unfolding post_entries
post_entries_replay env es es' ref db {out} some_entry unused h =
    let p =
      post_new-steps env es ref db
        (rw (unused-first ref.idempotency_key 1 db.ledger unused) at h) in
    let first =
      post_all-first env ref 1 p.resolved p.before
        (omega (arith, resolve_all-length es db p.resolving)) p.posting in
    let (names, kept) = post_all-ledger env ref 1 p.resolved p.before p.posting in
    ground (arith, first, names, p.measured_ledger, p.resolved_ledger)
