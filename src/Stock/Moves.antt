-- ===== src/Stock/Moves.antt =====
-- What a transfer of frappe_wms/services/stock.py moves, row by row.
use frappe_ewm.Base.{
  +ℤ_assoc, +ℤ_zero, >>=-eq-ok, Has, List, Name, Option, Result, [], ap, arith, false, from_option,
  if◌then◌else◌, inl, inr, leb_ℤ, length, none, ok, option_or, pos, refl, some, sym, throw_if-eq-ok,
  true, ℕ, ℤ, ◌+ℤ◌, ◌+◌, ◌-ℤ◌, ◌<ℤ◌, ◌==◌, ◌>>=◌, ◌∙◌, ◌∷◌, ◌≡◌,
}
use frappe_ewm.Stock.Conserve.{resolve_owner-quantity}
use frappe_ewm.Stock.Naming.{balance_name, dim_values, entry_name}
use frappe_ewm.Stock.Owner.{resolve_owner}
use frappe_ewm.Stock.Posting.{
  Reference, entry_key, key_exists, post_all, post_entries, post_new, post_one, resolve_all,
}
use frappe_ewm.Stock.Reconcile.{booked, post_one-quantity}
use frappe_ewm.Stock.Rows.{find_balance, quantity_of}
use frappe_ewm.Stock.Source.{IsSource, resolve_owner_idle, resolve_owner_keeps, resolve_owner_twice}
use frappe_ewm.Stock.Steps.{post_new-steps, resolve_owner-balances}
use frappe_ewm.Stock.Transfer.{Destination, Source, transfer_in, transfer_out, transfer_stock}
use frappe_ewm.Stock.Types.{Balance, Db, Entry, Env, Error, OwnerKeys, Place, not_positive}

-- A run of postings moves each row by what is booked under its name.
post_all-quantity :
    (env : Env) (ref : Reference) (seq : ℕ) (es : List Entry) (db : Db) {out : List Name × Db}
    (n : Name)
    → post_all env ref seq es db ≡ ok out
    → quantity_of n out.1.balances ≡ quantity_of n db.balances +ℤ booked env n es
unfolding post_all
post_all-quantity env ref seq [] db n h = ground (arith, +ℤ_zero (quantity_of n db.balances))
post_all-quantity env ref seq (e ∷ es) db {out} n h =
    let (db1, one, rest) =
      >>=-eq-ok (post_one env ref seq e db)
        (λ d. post_all env ref (seq + 1) es d >>= λ o.
          ok (env.ledger_name (length db.ledger) ∷ o.0, o.1))
        {b = out} h in
    let (o, all_posted, last) =
      >>=-eq-ok (post_all env ref (seq + 1) es db1)
        (λ o. ok (env.ledger_name (length db.ledger) ∷ o.0, o.1)) {b = out} rest in
    cc (
      last,
      post_all-quantity env ref (seq + 1) es db1 n all_posted,
      post_one-quantity env ref seq e db n one,
      +ℤ_assoc (quantity_of n db.balances) (if entry_name env e == n then e.quantity else pos 0)
          (booked env n es),
    )

resolve_all-pair :
    (probe positive : Entry) (db : Db)
    → resolve_owner probe db ≡ ok (probe, db)
    → leb_ℤ (pos 0) positive.quantity ≡ true
    → resolve_all (probe ∷ positive ∷ []) db ≡ ok (probe ∷ positive ∷ [], db)
unfolding resolve_all
resolve_all-pair probe positive db again adds =
    rw (again, resolve_owner_idle positive db (ground arith))

-- A posting of a resolved decrement and an increment books just these two.
post_new-pair :
    (env : Env) (ref : Reference) (probe positive : Entry) (db : Db) {out : List Name × Db}
    (n : Name)
    → resolve_owner probe db ≡ ok (probe, db)
    → leb_ℤ (pos 0) positive.quantity ≡ true
    → post_new env (probe ∷ positive ∷ []) ref db ≡ ok out
    → quantity_of n out.1.balances
      ≡ quantity_of n db.balances +ℤ booked env n (probe ∷ positive ∷ [])
post_new-pair env ref probe positive db {out} n again adds h =
    let p = post_new-steps env (probe ∷ positive ∷ []) ref db h in
    let same : ok (p.resolved, p.before) ≡ ok (probe ∷ positive ∷ [], db) =
      sym p.resolving ∙ resolve_all-pair probe positive db again adds in
    let entries : p.resolved ≡ probe ∷ positive ∷ [] = cc same in
    rw p.measured_balances (
      post_all-quantity env ref 1 p.resolved p.before n p.posting
      ∙ rw (entries, p.resolved_balances))

-- `transfer_stock` after its test, from the resolved source side.
transfer_tail :
    Env → Source → Destination → ℤ → Name → Reference → Entry × Db → Result Error (List Name × Db)
transfer_tail env s d q mt ref (probe, db') =
    post_entries env
      (probe ∷ transfer_in s d probe q mt (find_balance (entry_name env probe) db'.balances) ∷ [])
      ref db'

out_quantity : (s : Source) (q : ℤ) (mt : Name) → (transfer_out s q mt).quantity ≡ pos 0 -ℤ q
unfolding transfer_out
out_quantity s q mt = refl

in_quantity :
    (s : Source) (d : Destination) (probe : Entry) (q : ℤ) (mt : Name) (carried : Option Balance)
    → (transfer_in s d probe q mt carried).quantity ≡ q
unfolding transfer_in
in_quantity s d probe q mt carried = refl

transfer_in_adds :
    (s : Source) (d : Destination) (probe : Entry) (q : ℤ) (mt : Name) (carried : Option Balance)
    → leb_ℤ q (pos 0) ≡ false
    → leb_ℤ (pos 0) (transfer_in s d probe q mt carried).quantity ≡ true
transfer_in_adds s d probe q mt carried h = rw in_quantity (ground arith)

-- Where the moved stock lands: at the destination's unit, bin and stock type, and else what the
-- destination says, or the source.
abbrev pub landing_place : Source → Destination → Place
landing_place s d = record {
  warehouse = from_option s.place.warehouse d.warehouse;
  product = from_option s.place.product d.product;
  batch_no = from_option s.place.batch_no d.batch_no;
  serial_no = from_option s.place.serial_no d.serial_no;
  handling_unit = d.handling_unit;
  storage_bin = d.storage_bin;
  stock_type = d.stock_type;
}

-- Whose it is there: as the destination says, or as it was.
abbrev pub landing_owner : OwnerKeys (Option Name) → OwnerKeys Name → OwnerKeys Name
landing_owner d o = record {
  stock_owner = from_option o.stock_owner d.stock_owner;
  entitled_party = from_option o.entitled_party d.entitled_party;
  country_of_origin = from_option o.country_of_origin d.country_of_origin;
  special_stock_type = from_option o.special_stock_type d.special_stock_type;
  special_stock_ref = from_option o.special_stock_ref d.special_stock_ref;
  consolidation_group = from_option o.consolidation_group d.consolidation_group;
}

from_option-or :
    (a b : Option Name) → from_option 0 (option_or a b) ≡ from_option (from_option 0 b) a
from_option-or none b = refl
from_option-or (some n) b = refl

-- The row of the increment.
in_name :
    (env : Env) (s : Source) (d : Destination) (probe : Entry) (q : ℤ) (mt : Name)
    (carried : Option Balance)
    → entry_name env (transfer_in s d probe q mt carried)
      ≡ balance_name env (landing_place s d) (landing_owner d.owner (dim_values probe))
unfolding transfer_in
in_name env s d probe q mt carried = cc (
  from_option-or d.owner.stock_owner probe.owner.stock_owner,
  from_option-or d.owner.entitled_party probe.owner.entitled_party,
  from_option-or d.owner.country_of_origin probe.owner.country_of_origin,
  from_option-or d.owner.special_stock_type probe.owner.special_stock_type,
  from_option-or d.owner.special_stock_ref probe.owner.special_stock_ref,
  from_option-or d.owner.consolidation_group probe.owner.consolidation_group,
)

kept_entry :
    (e e' : Entry) (bs : List Balance) → Has (IsSource e e') bs → e' ≡ record e { owner = e'.owner }
kept_entry e e' [] found = elim found [ ]
kept_entry e e' (b ∷ bs) (inl here) = here.4
kept_entry e e' (b ∷ bs) (inr there) = kept_entry e e' bs there

-- Resolving the source changes no more than its owner dimensions.
probe-place :
    (s : Source) (q : ℤ) (mt : Name) (db : Db) {o : Entry × Db}
    → resolve_owner (transfer_out s q mt) db ≡ ok o
    → o.0.place ≡ s.place
unfolding transfer_out
probe-place s q mt db {o} resolving = elim (resolve_owner_keeps _ db resolving) [
  | inl same ↦ ap (λ e. e.place) same
  | inr found ↦
      let same = kept_entry (transfer_out s q mt) o.0 db.balances found in ap (λ e. e.place) same
]

-- A row's change by a transfer of `q` from the row `a` to the row `b`.
abbrev pub moves_by : ℤ → Name → Name → Name → ℤ
moves_by q a b n = (if a == n then pos 0 -ℤ q else pos 0) +ℤ (if b == n then q else pos 0)

-- A transfer that is not a repetition has a positive quantity; it takes it from the row at the
-- source's place with the owner dimensions that the source resolves to, and puts it on the row at
-- the destination's unit, bin and stock type, whose other dimensions are those that the
-- destination names or else the source's; every other row keeps its quantity.
pub transfer_stock-moves :
    (env : Env) (s : Source) (d : Destination) (q : ℤ) (mt : Name) (ref : Reference) (db : Db)
    {out : List Name × Db}
    → key_exists (entry_key ref.idempotency_key 1) db.ledger ≡ false
    → transfer_stock env s d q mt ref db ≡ ok out
    → (pos 0 <ℤ q)
      × (probe : Entry) × (db' : Db) × (resolve_owner (transfer_out s q mt) db ≡ ok (probe, db'))
      × ((n : Name)
          → quantity_of n out.1.balances
            ≡ quantity_of n db.balances
              +ℤ moves_by q
                  (balance_name env s.place (dim_values probe))
                  (balance_name env (landing_place s d) (landing_owner d.owner (dim_values probe)))
                  n)
unfolding transfer_stock transfer_tail post_entries
transfer_stock-moves env s d q mt ref db {out} fresh h =
    let (positive_q, h1) =
      throw_if-eq-ok (leb_ℤ q (pos 0)) not_positive
        (resolve_owner (transfer_out s q mt) db >>= transfer_tail env s d q mt ref) {b = out} h in
    let (o, resolving, h2) =
      >>=-eq-ok (resolve_owner (transfer_out s q mt) db) (transfer_tail env s d q mt ref) {b = out}
        h1 in
    let (same_balances, same_ledger) = resolve_owner-balances (transfer_out s q mt) db resolving in
    let carried = find_balance (entry_name env o.0) o.1.balances in
    let from_row : entry_name env o.0 ≡ balance_name env s.place (dim_values o.0) =
      ap (λ p. balance_name env p (dim_values o.0)) (probe-place s q mt db resolving) in
    (
      ground arith,
      o.0,
      o.1,
      resolving,
      λ n.
          let pair =
            post_new-pair env ref o.0 (transfer_in s d o.0 q mt carried) o.1 {out = out} n
              (resolve_owner_twice (transfer_out s q mt) db resolving)
              (transfer_in_adds s d o.0 q mt carried positive_q) (rw (same_ledger, fresh) at h2) in
          cc (
            pair,
            same_balances,
            from_row,
            in_name env s d o.0 q mt carried,
            resolve_owner-quantity (transfer_out s q mt) db resolving,
            out_quantity s q mt,
            in_quantity s d o.0 q mt carried,
            +ℤ_zero (if entry_name env (transfer_in s d o.0 q mt carried) == n then q else pos 0),
          ),
    )
