-- ===== src/Tests/Stock.antt =====
-- The postings of frappe_wms/services/stock.py, at concrete inputs.
use frappe_ewm.Base.{
  All, Has, List, Name, [], arith, if◌then◌else◌, map, ok, pos, refl, ℕ, ◌+ℤ◌, ◌-ℤ◌, ◌<ℤ◌, ◌==◌,
  ◌∷◌, ◌≡◌, ◌⊎◌,
}
use frappe_ewm.Stock.Balance.{
  merge_dates, moved, new_balance, target_doc, upsert_balance, upsert_doc, upserted,
}
use frappe_ewm.Stock.Bounds.{IsNonneg, post_entries-IsNonneg}
use frappe_ewm.Stock.Conserve.{post_entries_conserves, stock_total}
use frappe_ewm.Stock.Identity.{NoBar, raw_name-injective, raw_name_collision}
use frappe_ewm.Stock.Measure.{recompute_all}
use frappe_ewm.Stock.Moves.{landing_owner, landing_place, moves_by, transfer_stock-moves}
use frappe_ewm.Stock.Naming.{balance_name, bar, cg_mark, dim_values, raw_name, raw_pieces, text_of}
use frappe_ewm.Stock.Owner.{
  owner_pool, owner_stock_exists, resolve_from, resolve_owner, source_rows,
}
use frappe_ewm.Stock.Posting.{
  insert_ledger, key_below, key_exists, ledger_entry, names_below, post_all, post_entries, post_new,
  post_one, resolve_all, total_quantity, touched_hus, wrong_serial,
}
use frappe_ewm.Stock.Reconcile.{IsReconciled, post_entries-IsReconciled}
use frappe_ewm.Stock.Replay.{post_entries_replay}
use frappe_ewm.Stock.Resolved.{NeedsNoSource, resolve_owner-IsSource}
use frappe_ewm.Stock.Rows.{find_balance, quantity_of, same_place, save_balance}
use frappe_ewm.Stock.Source.{IsSource}
use frappe_ewm.Stock.Transfer.{transfer_in, transfer_out, transfer_stock}
use frappe_ewm.Stock.Types.{Db, Entry}
use frappe_ewm.Tests.Data.{
  anonymous, destination, env, move, no_owner, no_stock, posted, receipt, received, receiving_bin,
  reference, resolved, source, transferred,
}

post_entries-IsReconciled_example : IsReconciled env received.1
unfolding post_entries post_new resolve_all resolve_owner owner_stock_exists source_rows owner_pool
    resolve_from wrong_serial post_all post_one upsert_balance upserted target_doc upsert_doc
    new_balance merge_dates moved insert_ledger ledger_entry key_exists names_below key_below
    total_quantity touched_hus recompute_all find_balance save_balance quantity_of same_place
    raw_name balance_name ◌+ℤ◌ ◌-ℤ◌
post_entries-IsReconciled_example =
    post_entries-IsReconciled env (receipt ∷ []) (reference 1) no_stock
      (record { at_name = λ n. refl }) refl

post_entries_conserves_example : stock_total posted.1.balances ≡ stock_total received.1.balances
unfolding post_entries post_new resolve_all resolve_owner owner_stock_exists source_rows owner_pool
    resolve_from wrong_serial post_all post_one upsert_balance upserted target_doc upsert_doc
    new_balance merge_dates moved insert_ledger ledger_entry key_exists names_below key_below
    total_quantity touched_hus recompute_all find_balance save_balance same_place raw_name
    balance_name ◌+ℤ◌ ◌-ℤ◌
post_entries_conserves_example =
    post_entries_conserves env move (reference 2) received.1 (omega arith) refl

post_entries_replay_example : post_entries env [] (reference 2) posted.1 ≡ ok posted
unfolding post_entries post_new resolve_all resolve_owner owner_stock_exists source_rows owner_pool
    resolve_from wrong_serial post_all post_one upsert_balance upserted target_doc upsert_doc
    new_balance merge_dates moved insert_ledger ledger_entry key_exists names_below key_below
    total_quantity touched_hus recompute_all find_balance save_balance same_place raw_name
    balance_name ◌+ℤ◌ ◌-ℤ◌
post_entries_replay_example =
    post_entries_replay env move [] (reference 2) received.1 (omega arith) refl refl

transfer_stock-moves_example :
    (pos 0 <ℤ pos 2000000)
    × (probe : Entry) × (db' : Db) × (resolve_owner (transfer_out source (pos 2000000) 6) received.1
        ≡ ok (probe, db'))
    × ((n : Name)
        → quantity_of n transferred.1.balances
          ≡ quantity_of n received.1.balances
            +ℤ moves_by
                (pos 2000000)
                (balance_name env receiving_bin (dim_values probe))
                (balance_name env
                  (landing_place source destination)
                  (landing_owner destination.owner (dim_values probe)))
                n)
unfolding transfer_stock transfer_out transfer_in post_entries post_new resolve_all resolve_owner
    owner_stock_exists source_rows owner_pool resolve_from wrong_serial post_all post_one
    upsert_balance upserted target_doc upsert_doc new_balance merge_dates moved insert_ledger
    ledger_entry key_exists names_below key_below total_quantity touched_hus recompute_all
    find_balance save_balance same_place raw_name balance_name ◌+ℤ◌ ◌-ℤ◌
transfer_stock-moves_example =
    transfer_stock-moves env source destination (pos 2000000) 6 (reference 2) received.1 refl refl

resolve_owner-IsSource_example :
    ((resolved.0 ≡ anonymous) × NeedsNoSource anonymous received.1)
    ⊎ Has (IsSource anonymous resolved.0) received.1.balances
unfolding post_entries post_new resolve_all resolve_owner owner_stock_exists source_rows owner_pool
    resolve_from wrong_serial post_all post_one upsert_balance upserted target_doc upsert_doc
    new_balance merge_dates moved insert_ledger ledger_entry key_exists names_below key_below
    total_quantity touched_hus recompute_all find_balance save_balance same_place raw_name
    balance_name ◌+ℤ◌ ◌-ℤ◌
resolve_owner-IsSource_example = resolve_owner-IsSource anonymous received.1 refl

post_entries-IsNonneg_example : All IsNonneg posted.1.balances
unfolding post_entries post_new resolve_all resolve_owner owner_stock_exists source_rows owner_pool
    resolve_from wrong_serial post_all post_one upsert_balance upserted target_doc upsert_doc
    new_balance merge_dates moved insert_ledger ledger_entry key_exists names_below key_below
    total_quantity touched_hus recompute_all find_balance save_balance same_place raw_name
    balance_name ◌+ℤ◌ ◌-ℤ◌
post_entries-IsNonneg_example =
    post_entries-IsNonneg env move (reference 2) received.1 (λ w. refl) (omega arith, tt) refl

no_bars : All NoBar (map (text_of env) (raw_pieces receiving_bin no_owner))
no_bars = ground arith

texts_apart : (a b : Name) → text_of env a ≡ text_of env b → a ≡ b
texts_apart a b same = ground arith

raw_name-injective_example : (receiving_bin ≡ receiving_bin) × (no_owner ≡ no_owner)
raw_name-injective_example =
    raw_name-injective env receiving_bin receiving_bin no_owner no_owner texts_apart no_bars no_bars
      (omega arith) (omega arith) (omega arith) (omega arith) refl

-- Names with a bar: batches "a" and "a|b", serial numbers "b|c" and "c".
abbrev barred_text : Name → List ℕ
barred_text n =
    if n == 11
    then 97 ∷ []
    else if n == 12
    then 98 ∷ bar ∷ 99 ∷ []
    else if n == 13
    then 97 ∷ bar ∷ 98 ∷ []
    else if n == 14
    then 99 ∷ []
    else n ∷ []

barred_names_collide :
    raw_name
      (record env { text = barred_text })
      (record receiving_bin { batch_no = 11; serial_no = 12 })
      no_owner
    ≡ raw_name
        (record env { text = barred_text })
        (record receiving_bin { batch_no = 13; serial_no = 14 })
        no_owner
unfolding raw_name
barred_names_collide = refl

raw_name_collision_example :
    raw_name env receiving_bin (record no_owner { stock_owner = cg_mark; entitled_party = 40 })
    ≡ raw_name env receiving_bin (record no_owner { consolidation_group = 40 })
raw_name_collision_example = raw_name_collision env receiving_bin 40 (omega arith)
