-- ===== src/Stock/Rows.antt =====
-- The tables of the stock services as lists of rows: a locking read by name, `doc.save()`, and the
-- filters of `_resolve_owner`.
use frappe_ewm.Base.{
  Bool, List, Name, Option, [], arith, if◌then◌else◌, none, pos, refl, some, ℤ, ◌&&◌, ◌==◌, ◌∷◌,
  ◌≡◌,
}
use frappe_ewm.Stock.Types.{Balance, HandlingUnit, Place}

-- `_get_balance_for_update`
unfoldable pub find_balance : Name → List Balance → Option Balance
find_balance n [] = none
find_balance n (b ∷ bs) = if b.name == n then some b else find_balance n bs

-- `doc.save()` of a new or a loaded row.
unfoldable pub save_balance : Balance → List Balance → List Balance
save_balance d [] = d ∷ []
save_balance d (b ∷ bs) = if b.name == d.name then d ∷ bs else b ∷ save_balance d bs

-- `frappe.delete_doc`
unfoldable pub delete_balance : Name → List Balance → List Balance
delete_balance n [] = []
delete_balance n (b ∷ bs) = let rest = delete_balance n bs in if b.name == n then rest else b ∷ rest

unfoldable pub find_hu : Name → List HandlingUnit → Option HandlingUnit
find_hu n [] = none
find_hu n (h ∷ hs) = if h.name == n then some h else find_hu n hs

unfoldable pub save_hu : HandlingUnit → List HandlingUnit → List HandlingUnit
save_hu d [] = []
save_hu d (h ∷ hs) = if h.name == d.name then d ∷ hs else h ∷ save_hu d hs

-- What a row holds; a row that is not there holds nothing.
abbrev pub held : Option Balance → ℤ
held none = pos 0
held (some b) = b.quantity

unfoldable pub quantity_of : Name → List Balance → ℤ
quantity_of n bs = held (find_balance n bs)

unfoldable pub same_place : Place → Place → Bool
same_place p q =
    (p.warehouse == q.warehouse)
    && ((p.product == q.product)
        && ((p.batch_no == q.batch_no)
            && ((p.serial_no == q.serial_no)
                && ((p.handling_unit == q.handling_unit)
                    && ((p.storage_bin == q.storage_bin) && (p.stock_type == q.stock_type))))))

pub find-save :
    (n : Name) (d : Balance) (bs : List Balance)
    → find_balance n (save_balance d bs) ≡ (if d.name == n then some d else find_balance n bs)
unfolding find_balance save_balance
find-save n d [] = refl
find-save n d (b ∷ bs) = ground (arith, find-save n d bs)

pub find-delete :
    (n m : Name) (bs : List Balance)
    → find_balance n (delete_balance m bs) ≡ (if m == n then none else find_balance n bs)
unfolding find_balance delete_balance
find-delete n m [] = ground arith
find-delete n m (b ∷ bs) = ground (arith, find-delete n m bs)

pub find_balance-name :
    (n : Name) (bs : List Balance) {b : Balance} → find_balance n bs ≡ some b → b.name ≡ n
unfolding find_balance
find_balance-name n [] h = cc
find_balance-name n (c ∷ bs) {b} h = ground (arith, find_balance-name n bs {b = b})
