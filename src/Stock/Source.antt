-- ===== src/Stock/Source.antt =====
-- What `_resolve_owner` (frappe_wms/services/stock.py) does to a decrement.
use frappe_ewm.Base.{
  Bool, Bool-cases, Has, Has-keep, Has-map, List, List-cases, Name, Option, all, arith, from_option,
  inl, inr, is_empty, is_some, keep, leb_ℤ, ltb_ℤ, none, ok, option_or, pos, refl, some, true, ◌&&◌,
  ◌-ℤ◌, ◌<ℤ◌, ◌||◌, ◌∷◌, ◌≡◌, ◌⊎◌,
}
use frappe_ewm.Stock.Naming.{dim_values, map_keys, owner_list}
use frappe_ewm.Stock.Owner.{
  fill_owner, given_match, owner_pool, owner_stock_exists, resolve_from, resolve_owner, source_rows,
}
use frappe_ewm.Stock.Rows.{same_place}
use frappe_ewm.Stock.Types.{Balance, Db, Entry, OwnerKeys}

-- A key that is named keeps its value.
abbrev pub KeepsKey : Option Name → Option Name → Type 0
KeepsKey none l = Unit
KeepsKey (some n) l = l ≡ some n

abbrev pub KeepsNamed : OwnerKeys (Option Name) → OwnerKeys (Option Name) → Type 0
KeepsNamed o o' =
    KeepsKey o.stock_owner o'.stock_owner
    × KeepsKey o.entitled_party o'.entitled_party
    × KeepsKey o.country_of_origin o'.country_of_origin
    × KeepsKey o.special_stock_type o'.special_stock_type
    × KeepsKey o.special_stock_ref o'.special_stock_ref
    × KeepsKey o.consolidation_group o'.consolidation_group

-- The row that an entry is booked from: of the entry's place, with stock, and with the owner
-- dimensions that the resolved entry carries, which keeps all that the entry says.
abbrev pub IsSource : Entry → Entry → Balance → Type 0
IsSource e e' r =
    (same_place r.place e.place ≡ true)
    × (pos 0 <ℤ r.quantity)
    × (dim_values e' ≡ r.owner)
    × KeepsNamed e.owner e'.owner
    × (e' ≡ record e { owner = e'.owner })

abbrev pub is_candidate : Entry → Balance → Bool
is_candidate e b =
    same_place b.place e.place
    && (ltb_ℤ (pos 0) b.quantity && given_match (owner_list e.owner) (owner_list b.owner))

fill_owner-match :
    (o : OwnerKeys (Option Name)) (r : OwnerKeys Name)
    → given_match (owner_list o) (owner_list r) ≡ true
    → map_keys (from_option 0) (fill_owner o r) ≡ r
fill_owner-match o r h = ground arith

keeps_key : (k : Option Name) (n : Name) → KeepsKey k (option_or k (some n))
keeps_key none n = tt
keeps_key (some k) n = refl

fill_owner-KeepsNamed :
    (o : OwnerKeys (Option Name)) (r : OwnerKeys Name) → KeepsNamed o (fill_owner o r)
fill_owner-KeepsNamed o r = (
  keeps_key o.stock_owner r.stock_owner,
  keeps_key o.entitled_party r.entitled_party,
  keeps_key o.country_of_origin r.country_of_origin,
  keeps_key o.special_stock_type r.special_stock_type,
  keeps_key o.special_stock_ref r.special_stock_ref,
  keeps_key o.consolidation_group r.consolidation_group,
)

candidate_facts :
    (e : Entry) (r b : Balance)
    → (b ≡ r) × (is_candidate e b ≡ true)
    → (same_place b.place e.place ≡ true)
      × (pos 0 <ℤ b.quantity)
      × (map_keys (from_option 0) (fill_owner e.owner r.owner) ≡ b.owner)
candidate_facts e r b h = ground (arith, fill_owner-match e.owner b.owner)

pub candidate-IsSource :
    (e : Entry) (r b : Balance)
    → (b ≡ r) × (is_candidate e b ≡ true)
    → IsSource e (record e { owner = fill_owner e.owner r.owner }) b
candidate-IsSource e r b h =
    let (here, holds, owner) = candidate_facts e r b h in
    (here, holds, owner, fill_owner-KeepsNamed e.owner r.owner, refl)

Has-head : (bs : List Balance) (r : Balance) (rs : List Balance) → bs ≡ r ∷ rs → Has (λ b. b ≡ r) bs
Has-head bs r rs h = rw h (inl refl)

-- The first row of the pool is one of the candidates in the table.
pub owner_pool-head :
    (e : Entry) (bs : List Balance) (r : Balance) (rs : List Balance)
    → owner_pool e (source_rows e bs) ≡ r ∷ rs
    → Has (λ b. (b ≡ r) × (is_candidate e b ≡ true)) bs
unfolding owner_pool source_rows
owner_pool-head e bs r rs h =
    let rows = keep (is_candidate e) bs in
    let covers = λ (b : Balance). leb_ℤ (pos 0 -ℤ e.quantity -ℤ pos 1) b.quantity in
    elim (Bool-cases (is_empty (keep covers rows))) [
      | inl none_covers ↦
          Has-keep (λ b. b ≡ r) (is_candidate e) bs (Has-head rows r rs (rw none_covers at h))
      | inr some_cover ↦
          Has-keep (λ b. b ≡ r) (is_candidate e) bs
            (Has-map _ (λ b. b ≡ r) rows (λ b both. both.0)
              (Has-keep (λ b. b ≡ r) covers rows
                (Has-head (keep covers rows) r rs (rw some_cover at h))))
    ]

-- The pool decides: the entry stays as it is, or takes the owner of the first row.
pub resolve_from-cases :
    (e : Entry) (r : Balance) (rs : List Balance) {e' : Entry}
    → resolve_from e (r ∷ rs) ≡ ok e'
    → (e' ≡ e) ⊎ (e' ≡ record e { owner = fill_owner e.owner r.owner })
unfolding resolve_from
resolve_from-cases e r rs h = ground arith

resolve_owner-cases :
    (e : Entry) (db : Db) {out : Entry × Db}
    → resolve_owner e db ≡ ok out
    → (out.0 ≡ e) ⊎ (resolve_from e (owner_pool e (source_rows e db.balances)) ≡ ok out.0)
unfolding resolve_owner owner_stock_exists
resolve_owner-cases e db h = ground arith

-- What is not taken as it is comes from a row.
pub resolve_owner_keeps :
    (e : Entry) (db : Db) {out : Entry × Db}
    → resolve_owner e db ≡ ok out
    → (out.0 ≡ e) ⊎ Has (IsSource e out.0) db.balances
resolve_owner_keeps e db {out} h = elim (resolve_owner-cases e db h) [
  | inl same ↦ inl same
  | inr resolved ↦ elim (List-cases (owner_pool e (source_rows e db.balances))) [
    | inl nothing ↦ inl (unfold resolve_from in cc (rw nothing at resolved))
    | inr (r, rs, pool) ↦ elim (resolve_from-cases e r rs (rw pool at resolved)) [
      | inl same ↦ inl same
      | inr filled ↦ inr (
          rw filled (
            Has-map _ (IsSource e (record e { owner = fill_owner e.owner r.owner })) db.balances
              (candidate-IsSource e r) (owner_pool-head e db.balances r rs pool)))
    ]
  ]
]

fill_owner-named :
    (o : OwnerKeys (Option Name)) (r : OwnerKeys Name)
    → all is_some (owner_list (fill_owner o r)) ≡ true
fill_owner-named o r = ground arith

-- An entry that names every dimension, or that adds stock, is left as it is.
pub resolve_owner_idle :
    (e : Entry) (db : Db)
    → (all is_some (owner_list e.owner) || leb_ℤ (pos 0) e.quantity) ≡ true
    → resolve_owner e db ≡ ok (e, db)
unfolding resolve_owner
resolve_owner_idle e db h = rw h

resolve_again :
    (e : Entry) (db : Db) {out : Entry × Db}
    → resolve_owner e db ≡ ok out
    → out.0 ≡ e
    → resolve_owner e out.1 ≡ ok (e, out.1)
unfolding resolve_owner owner_stock_exists
resolve_again e db h same = ground arith

-- Resolving an entry twice is resolving it once.
pub resolve_owner_twice :
    (e : Entry) (db : Db) {out : Entry × Db}
    → resolve_owner e db ≡ ok out
    → resolve_owner out.0 out.1 ≡ ok out
resolve_owner_twice e db {out} h = elim (resolve_owner-cases e db h) [
  | inl same ↦ ground (arith, resolve_again e db h same)
  | inr resolved ↦ elim (List-cases (owner_pool e (source_rows e db.balances))) [
    | inl nothing ↦
        let same : out.0 ≡ e = unfold resolve_from in cc (rw nothing at resolved) in
        ground (arith, resolve_again e db h same)
    | inr (r, rs, pool) ↦ elim (resolve_from-cases e r rs (rw pool at resolved)) [
      | inl same ↦ ground (arith, resolve_again e db h same)
      | inr filled ↦ resolve_owner_idle out.0 out.1 (rw (filled, fill_owner-named e.owner r.owner))
    ]
  ]
]
