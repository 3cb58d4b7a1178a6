-- ===== src/Stock/Bounds.antt =====
-- Invariants of single balance rows of frappe_wms/services/stock.py.
use frappe_ewm.Base.{
  All, Bool-cases, List, Name, Option, [], arith, false, inl, inr, none, ok, pos, refl, some, subst,
  ◌-ℤ◌, ◌==◌, ◌∷◌, ◌≡◌, ◌≤ℤ◌,
}
use frappe_ewm.Stock.Balance.{moved, target_doc, upsert_balance, upserted}
use frappe_ewm.Stock.Keeps.{post_entries-keeps}
use frappe_ewm.Stock.Posting.{Reference, post_entries}
use frappe_ewm.Stock.Rows.{find_balance, save_balance}
use frappe_ewm.Stock.Steps.{post_one-ok, post_one-upsert}
use frappe_ewm.Stock.Types.{Balance, Db, Entry, Env}

pub All-save :
    (P : Balance → Type 0) (d : Balance) (bs : List Balance)
    → P d
    → All P bs
    → All P (save_balance d bs)
unfolding save_balance
All-save P d [] p h = (p, tt)
All-save P d (b ∷ bs) p h = elim (Bool-cases (b.name == d.name)) [
  | inl old ↦ rw old (p, h.1)
  | inr other ↦ rw other (h.0, All-save P d bs p h.1)
]

abbrev HeldBy : (Balance → Type 0) → Option Balance → Type 0
HeldBy P none = Unit
HeldBy P (some b) = P b

-- What holds of every row holds of the one that is found.
pub All-find :
    (P : Balance → Type 0) (n : Name) (bs : List Balance) {b : Balance}
    → All P bs
    → find_balance n bs ≡ some b
    → P b
unfolding find_balance
All-find P n [] h e = cc
All-find P n (c ∷ bs) {b} h e = elim (Bool-cases (c.name == n)) [
  | inl here ↦ subst (λ o. HeldBy P o) (rw here at e) h.0
  | inr there ↦ All-find P n bs h.1 (rw there at e)
]

-- The row promises no more than it holds: what is available is what is held and not reserved.
abbrev pub IsBooked : Balance → Type 0
IsBooked b = b.available_quantity ≡ b.quantity -ℤ b.allocated_quantity

abbrev pub IsNonneg : Balance → Type 0
IsNonneg b = pos 0 ≤ℤ b.quantity

upserted-IsBooked :
    (env : Env) (e : Entry) (db : Db)
    → All IsBooked db.balances
    → All IsBooked (upserted env e db).balances
unfolding upserted moved
upserted-IsBooked env e db h =
    All-save IsBooked (moved env e.quantity (target_doc env e db)) db.balances refl h

upserted-IsNonneg :
    (env : Env) (e : Entry) (db : Db) {db' : Db}
    → ((w : Name) → env.allow_negative_stock w ≡ false)
    → All IsNonneg db.balances
    → upsert_balance env e db ≡ ok db'
    → All IsNonneg (upserted env e db).balances
unfolding upserted moved upsert_balance
upserted-IsNonneg env e db strict h p =
    All-save IsNonneg (moved env e.quantity (target_doc env e db)) db.balances
      (ground (arith, strict e.place.warehouse)) h

-- Every posting that is not refused leaves each row with an available quantity that is its
-- quantity less what is reserved, if each had one.
post_entries-IsBooked :
    (env : Env) (es : List Entry) (ref : Reference) (db : Db) {out : List Name × Db}
    → All IsBooked db.balances
    → post_entries env es ref db ≡ ok out
    → All IsBooked out.1.balances
post_entries-IsBooked env es ref db =
    post_entries-keeps (λ d. All IsBooked d.balances) env
      (λ ref seq e d d' h p. rw (post_one-ok env ref seq e d p) (upserted-IsBooked env e d h))
      (λ d d' b l h. rw b h) es ref db

-- Where no warehouse allows negative stock and no row is below zero, no posting that is not
-- refused leaves a row below zero.
pub post_entries-IsNonneg :
    (env : Env) (es : List Entry) (ref : Reference) (db : Db) {out : List Name × Db}
    → ((w : Name) → env.allow_negative_stock w ≡ false)
    → All IsNonneg db.balances
    → post_entries env es ref db ≡ ok out
    → All IsNonneg out.1.balances
post_entries-IsNonneg env es ref db strict =
    post_entries-keeps (λ d. All IsNonneg d.balances) env
      (λ ref seq e d d' h p.
        rw (post_one-ok env ref seq e d p)
          (upserted-IsNonneg env e d strict h (post_one-upsert env ref seq e d p).1))
      (λ d d' b l h. rw b h) es ref db
