-- ===== src/Stock/Resolved.antt =====
-- When `_resolve_owner` (frappe_wms/services/stock.py) leaves an entry as it is, and what it takes else.
use frappe_ewm.Base.{
  All, Bool, Bool-cases, Has, Has-keep, Has-map, List, List-cases, Result-cases, [], all, any,
  any-Has, ap, arith, false, inl, inr, is_empty, is_some, keep, leb_ℤ, not, ok, pos, subst, sym,
  true, ◌-ℤ◌, ◌∷◌, ◌≡◌, ◌≤ℤ◌, ◌⊎◌,
}
use frappe_ewm.Stock.Naming.{owner_list}
use frappe_ewm.Stock.Owner.{
  fill_owner, missing_set, owner_pool, owner_stock_exists, resolve_from, resolve_owner, source_rows,
}
use frappe_ewm.Stock.Source.{IsSource, candidate-IsSource, is_candidate, owner_pool-head}
use frappe_ewm.Stock.Types.{Balance, Db, Entry}

-- The row has something in a dimension that the entry does not name.
abbrev pub is_owned : Entry → Balance → Bool
is_owned e b = missing_set (owner_list e.owner) (owner_list b.owner)

-- Nothing is to be taken from a row: the entry names all dimensions or adds stock, no stock has an
-- owner, no row fits the entry, or one that fits has nothing in the dimensions that it lacks.
abbrev pub NeedsNoSource : Entry → Db → Type 0
NeedsNoSource e db =
    (all is_some (owner_list e.owner) ≡ true)
    ⊎ ((pos 0 ≤ℤ e.quantity)
        ⊎ (((owner_stock_exists db).0 ≡ false)
            ⊎ (All (λ b. is_candidate e b ≡ false) db.balances
                ⊎ Has (λ b. (is_owned e b ≡ false) × (is_candidate e b ≡ true)) db.balances)))

keep-nil : (p : Balance → Bool) (xs : List Balance) → keep p xs ≡ [] → All (λ x. p x ≡ false) xs
keep-nil p [] nothing = tt
keep-nil p (x ∷ xs) nothing = elim (Bool-cases (p x)) [
  | inl kept ↦ cc (rw kept at nothing)
  | inr dropped ↦ (dropped, keep-nil p xs (rw dropped at nothing))
]

-- The rows of the pool fit the entry.
owner_pool-Has :
    (P : Balance → Type 0) (e : Entry) (bs : List Balance)
    → Has P (owner_pool e (source_rows e bs))
    → Has (λ b. P b × (is_candidate e b ≡ true)) bs
unfolding owner_pool source_rows
owner_pool-Has P e bs found =
    let rows = keep (is_candidate e) bs in
    let covers = λ (b : Balance). leb_ℤ (pos 0 -ℤ e.quantity -ℤ pos 1) b.quantity in
    elim (Bool-cases (is_empty (keep covers rows))) [
      | inl none_covers ↦ Has-keep P (is_candidate e) bs (rw none_covers at found)
      | inr some_cover ↦
          Has-keep P (is_candidate e) bs
            (Has-map _ P rows (λ b both. both.0) (Has-keep P covers rows (rw some_cover at found)))
    ]

-- An empty pool means that no row fits.
owner_pool-nil :
    (e : Entry) (bs : List Balance)
    → owner_pool e (source_rows e bs) ≡ []
    → All (λ b. is_candidate e b ≡ false) bs
unfolding owner_pool source_rows
owner_pool-nil e bs nothing =
    let rows = keep (is_candidate e) bs in
    let covers = λ (b : Balance). leb_ℤ (pos 0 -ℤ e.quantity -ℤ pos 1) b.quantity in
    elim (Bool-cases (is_empty (keep covers rows))) [
      | inl none_covers ↦ keep-nil (is_candidate e) bs (rw none_covers at nothing)
      | inr some_cover ↦
          let covering : keep covers rows ≡ [] = rw some_cover at nothing in
          cc (some_cover, covering)
    ]

-- A pool in which every row is owned gives its first row's dimensions.
resolve_from-owned :
    (e : Entry) (r : Balance) (rs : List Balance) {e' : Entry}
    → resolve_from e (r ∷ rs) ≡ ok e'
    → any (λ b. not (is_owned e b)) (r ∷ rs) ≡ false
    → e' ≡ record e { owner = fill_owner e.owner r.owner }
unfolding resolve_from
resolve_from-owned e r rs h owned = ground arith

resolve_from-plain :
    (e : Entry) (r : Balance) (rs : List Balance) {e' : Entry}
    → resolve_from e (r ∷ rs) ≡ ok e'
    → any (λ b. not (is_owned e b)) (r ∷ rs) ≡ true
    → e' ≡ e
unfolding resolve_from
resolve_from-plain e r rs h plain = ground arith

-- What the pool decides.
pool-IsSource :
    (e : Entry) (db : Db) {e' : Entry}
    → resolve_from e (owner_pool e (source_rows e db.balances)) ≡ ok e'
    → ((e' ≡ e) × NeedsNoSource e db) ⊎ Has (IsSource e e') db.balances
pool-IsSource e db {e'} goes = elim (List-cases (owner_pool e (source_rows e db.balances))) [
  | inl nothing ↦
      let same : e' ≡ e = unfold resolve_from in cc (rw nothing at goes) in
      inl (same, inr (inr (inr (inl (owner_pool-nil e db.balances nothing)))))
  | inr (r, rs, pool) ↦ elim (Bool-cases (any (λ b. not (is_owned e b)) (r ∷ rs))) [
    | inl plain ↦
        let found : Has (λ b. not (is_owned e b) ≡ true)
            (owner_pool e (source_rows e db.balances)) =
          rw pool (any-Has (λ b. not (is_owned e b)) (r ∷ rs) plain) in
        let fits =
          Has-map (λ b. (not (is_owned e b) ≡ true) × (is_candidate e b ≡ true))
            (λ b. (is_owned e b ≡ false) × (is_candidate e b ≡ true)) db.balances
            (λ b both. (not-true (is_owned e b) both.0, both.1))
            (owner_pool-Has (λ b. not (is_owned e b) ≡ true) e db.balances found) in
        inl (resolve_from-plain e r rs (rw pool at goes) plain, inr (inr (inr (inr fits))))
    | inr owned ↦
        let filled = resolve_from-owned e r rs (rw pool at goes) owned in
        inr (
          rw filled (
            Has-map _ (IsSource e (record e { owner = fill_owner e.owner r.owner })) db.balances
              (candidate-IsSource e r) (owner_pool-head e db.balances r rs pool)))
  ]
]
  where
    not-true : (b : Bool) → not b ≡ true → b ≡ false
    not-true b h = ground arith

-- An entry that is resolved goes through as it is, and then it names all dimensions, adds stock,
-- no stock has an owner, no row of its place with stock fits what it names, or one that fits has
-- nothing in the dimensions that it lacks; or it keeps all that it says and takes the other
-- dimensions from one row of its place that holds stock and has just the dimensions that it then
-- carries.
pub resolve_owner-IsSource :
    (e : Entry) (db : Db) {out : Entry × Db}
    → resolve_owner e db ≡ ok out
    → ((out.0 ≡ e) × NeedsNoSource e db) ⊎ Has (IsSource e out.0) db.balances
unfolding resolve_owner
resolve_owner-IsSource e db {out} h = elim (Bool-cases (all is_some (owner_list e.owner))) [
  | inl named ↦
      let same : (e, db) ≡ out = cc (h, named) in inl (ap (λ o. o.0) (sym same), inl named)
  | inr lacks ↦ elim (Bool-cases (leb_ℤ (pos 0) e.quantity)) [
    | inl adds ↦
        let same : (e, db) ≡ out = cc (h, lacks, adds) in
        inl (ap (λ o. o.0) (sym same), inr (inl (ground arith)))
    | inr takes ↦ elim (Bool-cases (owner_stock_exists db).0) [
      | inr unowned ↦
          let same : (e, (owner_stock_exists db).1) ≡ out = cc (h, lacks, takes, unowned) in
          inl (ap (λ o. o.0) (sym same), inr (inr (inl unowned)))
      | inl owned ↦
          elim (Result-cases (resolve_from e (owner_pool e (source_rows e db.balances)))) [
            | inl (c, fails) ↦ cc (h, lacks, takes, owned, fails)
            | inr (e', goes) ↦
                let same : (e', (owner_stock_exists db).1) ≡ out =
                  cc (h, lacks, takes, owned, goes) in
                let first : e' ≡ out.0 = ap (λ o. o.0) same in
                subst (λ x. ((x ≡ e) × NeedsNoSource e db) ⊎ Has (IsSource e x) db.balances) first
                  (pool-IsSource e db goes)
          ]
    ]
  ]
]
