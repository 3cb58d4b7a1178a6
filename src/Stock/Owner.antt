-- ===== src/Stock/Owner.antt =====
-- `_owner_stock_exists` and `_resolve_owner` of frappe_wms/services/stock.py: a decrement takes the
-- owner dimensions that it does not name from the stock it is booked from.
use frappe_ewm.Base.{
  Bool, List, Name, Option, Result, [], all, any, err, false, if◌then◌else◌, is_empty, is_set,
  is_some, keep, leb_ℤ, ltb_ℤ, none, not, ok, option_or, pos, some, true, ◌&&◌, ◌-ℤ◌, ◌==◌, ◌||◌,
  ◌∷◌,
}
use frappe_ewm.Stock.Naming.{any_owner, owner_list}
use frappe_ewm.Stock.Rows.{same_place}
use frappe_ewm.Stock.Types.{Balance, Db, Entry, Error, OwnerKeys, ambiguous_owner}

-- The answer, and the state with the answer cached for the request.
unfoldable pub owner_stock_exists : Db → Bool × Db
owner_stock_exists db = elim db.wms_owner_stock [
  | some flag ↦ (flag, db)
  | none ↦ (
    any (λ b. any_owner b.owner) db.balances,
    record db { wms_owner_stock = some (any (λ b. any_owner b.owner) db.balances) },
  )
]

-- The row agrees with every key that the entry names.
abbrev pub given_match : List (Option Name) → List Name → Bool
given_match [] row = true
given_match (k ∷ ks) [] = true
given_match (none ∷ ks) (v ∷ vs) = given_match ks vs
given_match (some k ∷ ks) (v ∷ vs) = (v == k) && given_match ks vs

-- The row has a value in a key that the entry lacks.
abbrev pub missing_set : List (Option Name) → List Name → Bool
missing_set [] row = false
missing_set (k ∷ ks) [] = false
missing_set (none ∷ ks) (v ∷ vs) = is_set v || missing_set ks vs
missing_set (some k ∷ ks) (v ∷ vs) = missing_set ks vs

-- Two rows agree in every key that the entry lacks.
abbrev pub missing_agree : List (Option Name) → List Name → List Name → Bool
missing_agree [] r s = true
missing_agree (k ∷ ks) [] s = true
missing_agree (k ∷ ks) (v ∷ vs) [] = true
missing_agree (none ∷ ks) (v ∷ vs) (w ∷ ws) = (v == w) && missing_agree ks vs ws
missing_agree (some k ∷ ks) (v ∷ vs) (w ∷ ws) = missing_agree ks vs ws

-- The rows of the entry's place that hold stock and agree with what the entry names.
unfoldable pub source_rows : Entry → List Balance → List Balance
source_rows e = keep λ b.
    same_place b.place e.place
    && (ltb_ℤ (pos 0) b.quantity && given_match (owner_list e.owner) (owner_list b.owner))

-- `[r for r in rows if flt(r.quantity) >= needed - 0.000001] or rows`
unfoldable pub owner_pool : Entry → List Balance → List Balance
owner_pool e rows =
    let needed = pos 0 -ℤ e.quantity in
    let covering = keep (λ (b : Balance). leb_ℤ (needed -ℤ pos 1) b.quantity) rows in
    if is_empty covering then rows else covering

-- `for k in missing: entry[k] = pool[0].get(k)`
abbrev pub fill_owner : OwnerKeys (Option Name) → OwnerKeys Name → OwnerKeys (Option Name)
fill_owner o r = record {
  stock_owner = option_or o.stock_owner (some r.stock_owner);
  entitled_party = option_or o.entitled_party (some r.entitled_party);
  country_of_origin = option_or o.country_of_origin (some r.country_of_origin);
  special_stock_type = option_or o.special_stock_type (some r.special_stock_type);
  special_stock_ref = option_or o.special_stock_ref (some r.special_stock_ref);
  consolidation_group = option_or o.consolidation_group (some r.consolidation_group);
}

-- The tail of `_resolve_owner`, on the pool of rows.
unfoldable pub resolve_from : Entry → List Balance → Result Error Entry
resolve_from e [] = ok e
resolve_from e (r ∷ rs) =
    if any (λ b. not (missing_set (owner_list e.owner) (owner_list b.owner))) (r ∷ rs)
    then ok e
    else if not
        (all (λ b. missing_agree (owner_list e.owner) (owner_list r.owner) (owner_list b.owner)) rs)
    then err ambiguous_owner
    else ok (record e { owner = fill_owner e.owner r.owner })

unfoldable pub resolve_owner : Entry → Db → Result Error (Entry × Db)
resolve_owner e db =
    if all is_some (owner_list e.owner) || leb_ℤ (pos 0) e.quantity
    then ok (e, db)
    else (let (exists, db') = owner_stock_exists db in
        if not exists
        then ok (e, db')
        else elim (resolve_from e (owner_pool e (source_rows e db.balances))) [
          | ok e' ↦ ok (e', db')
          | err c ↦ err c
        ])
