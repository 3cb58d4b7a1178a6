-- ===== src/Stock/Follow.antt =====
-- What `relocate_hu_balances` of frappe_wms/services/stock.py moves.
use frappe_ewm.Base.{All, Bool-cases, List, Name, Option-cases, [], inl, inr, refl, ◌==◌, ◌∷◌}
use frappe_ewm.Stock.Bounds.{IsBooked}
use frappe_ewm.Stock.Relocate.{
  merge_row, relocate_from, relocate_hus, relocate_row, relocate_rows, stale_rows, target_row,
}
use frappe_ewm.Stock.Rows.{delete_balance, find_balance, save_balance}
use frappe_ewm.Stock.Types.{Balance, Db, Env}

All-save_balance :
    (P : Balance → Type 0) (d : Balance) (bs : List Balance)
    → P d
    → All P bs
    → All P (save_balance d bs)
unfolding save_balance
All-save_balance P d [] p h = (p, tt)
All-save_balance P d (b ∷ bs) p h = elim (Bool-cases (b.name == d.name)) [
  | inl old ↦ rw old (p, h.1)
  | inr other ↦ rw other (h.0, All-save_balance P d bs p h.1)
]

All-delete_balance :
    (P : Balance → Type 0) (n : Name) (bs : List Balance) → All P bs → All P (delete_balance n bs)
unfolding delete_balance
All-delete_balance P n [] h = tt
All-delete_balance P n (b ∷ bs) h = elim (Bool-cases (b.name == n)) [
  | inl gone ↦ rw gone (All-delete_balance P n bs h.1)
  | inr stays ↦ rw stays (h.0, All-delete_balance P n bs h.1)
]

relocate_row-IsBooked :
    (env : Env) (new_bin : Name) (row : Balance) (bs : List Balance)
    → All IsBooked bs
    → All IsBooked (relocate_row env new_bin row bs)
unfolding relocate_row relocate_from merge_row
relocate_row-IsBooked env new_bin row bs h = elim (Option-cases (find_balance row.name bs)) [
  | inl gone ↦ rw gone h
  | inr (source, found) ↦ rw found (
      All-delete_balance IsBooked row.name _ (
        All-save_balance IsBooked (merge_row env row source (target_row env new_bin row bs)) bs refl
          h))
]

relocate_rows-IsBooked :
    (env : Env) (new_bin : Name) (rows bs : List Balance)
    → All IsBooked bs
    → All IsBooked (relocate_rows env new_bin rows bs)
unfolding relocate_rows
relocate_rows-IsBooked env new_bin [] bs h = h
relocate_rows-IsBooked env new_bin (row ∷ rows) bs h =
    relocate_rows-IsBooked env new_bin rows _ (relocate_row-IsBooked env new_bin row bs h)

-- Relocating the rows of handling units leaves each row with an available quantity that is its
-- quantity less what is reserved, if each had one.
relocate_hus-IsBooked :
    (env : Env) (new_bin : Name) (hus : List Name) (db : Db)
    → All IsBooked db.balances
    → All IsBooked (relocate_hus env new_bin hus db).balances
unfolding relocate_hus
relocate_hus-IsBooked env new_bin [] db h = h
relocate_hus-IsBooked env new_bin (hu ∷ hus) db h =
    relocate_hus-IsBooked env new_bin hus _
      (relocate_rows-IsBooked env new_bin (stale_rows hu new_bin db.balances) db.balances h)
