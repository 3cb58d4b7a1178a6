-- ===== src/Allocation/Candidates.antt =====
-- `_candidate_balances` of frappe_wms/services/allocation.py: the rows that a delivery line may take
-- stock from, in the order in which it takes them.
use frappe_ewm.Base.{
  Bool, List, Name, Option, Result, [], any, contains, err, false, from_option, if◌then◌else◌,
  is_empty, is_set, is_some, keep, leb, ltb, ltb_ℤ, none, not, ok, option_or, pos, some, sorted,
  true, ℕ, ◌&&◌, ◌+◌, ◌==◌, ◌>>=◌, ◌||◌, ◌∷◌,
}
use frappe_ewm.Allocation.Types.{AllocationError, Delivery, Line, Master, removal_error}
use frappe_ewm.Removal.{RemovalError, apply_strategy, fifo_less, match_removal_rule, strategy_fefo}
use frappe_ewm.Stock.Types.{Balance}

abbrev intersect : List Name → List Name → List Name
intersect xs ys = keep (λ x. contains x ys) xs

-- The rounds of the loop after the first requirement.
unfoldable pub more_batches : Master → List Name → List (Name × Name) → List Name
more_batches m matching [] = matching
more_batches m matching ((characteristic, value) ∷ rest) =
    let next = more_batches m (intersect matching (m.batches_with characteristic value)) rest in
    if is_empty matching then [] else next

-- `_matching_batches_for_characteristics`
unfoldable pub matching_batches : Master → List (Name × Name) → List Name
matching_batches m [] = []
matching_batches m ((characteristic, value) ∷ rest) =
    more_batches m (m.batches_with characteristic value) rest

-- The batches that a line admits; `none` is no restriction.
unfoldable pub admitted_batches : Master → Line → Option (List Name)
admitted_batches m row =
    if is_empty row.required_characteristics
    then (if is_set row.required_batch then some (row.required_batch ∷ []) else none)
    else some (
        let matching = matching_batches m row.required_characteristics in
        if is_set row.required_batch
        then intersect matching (row.required_batch ∷ [])
        else matching)

abbrev in_batches : Option (List Name) → Name → Bool
in_batches none b = true
in_batches (some bs) b = contains b bs

abbrev blank : Name → Bool
blank n = not (is_set n)

-- The filters of the query on `WMS Stock Balance`.
unfoldable pub row_matches : Master → Delivery → Line → Balance → Bool
row_matches m d row b =
    (b.place.warehouse == d.warehouse)
    && ((b.place.product == row.item)
        && ((b.place.stock_type == row.required_stock_type)
            && (ltb_ℤ (pos 0) b.available_quantity
                && ((b.owner.stock_owner == d.stock_owner)
                    && ((b.owner.entitled_party == d.entitled_party)
                        && ((blank b.owner.special_stock_ref
                              || (is_set row.sales_order
                                  && (b.owner.special_stock_ref == row.sales_order)))
                            && (blank b.owner.consolidation_group
                                && ((blank row.required_country_of_origin
                                      || (b.owner.country_of_origin
                                          == row.required_country_of_origin))
                                    && ((blank row.required_serial_no
                                          || (b.place.serial_no == row.required_serial_no))
                                        && in_batches (admitted_batches m row)
                                            b.place.batch_no)))))))))

abbrev lift_removal : Result RemovalError (List Balance) → Result AllocationError (List Balance)
lift_removal (ok bs) = ok bs
lift_removal (err e) = err (removal_error e)

-- The removal rule of the warehouse, or the default.
unfoldable pub order_rows :
    Master → Delivery → Line → List Balance → Result AllocationError (List Balance)
order_rows m d row bs =
    lift_removal
      (elim (match_removal_rule row.item (m.item_group row.item) row.required_stock_type
        (m.removal_rules d.warehouse)) [
          | none ↦ strategy_fefo bs
          | some rule ↦ apply_strategy m.sort_value m.registry rule bs
        ])

-- The stricter of the product's and the customer's minimum remaining shelf life.
unfoldable pub min_remaining : Master → Delivery → Line → ℕ
min_remaining m d row =
    let product = m.minimum_remaining_shelf_life row.item in
    let customer = if is_set d.customer then m.customer_remaining_shelf_life d.customer else 0 in
    if ltb product customer then customer else product

abbrev lives_until : ℕ → Option ℕ → Bool
lives_until cutoff none = true
lives_until cutoff (some expiry) = leb cutoff expiry

unfoldable pub long_enough : Master → Delivery → Line → List Balance → List Balance
long_enough m d row bs =
    let remaining = min_remaining m d row in
    if remaining == 0
    then bs
    else keep (λ (b : Balance). lives_until (m.today + remaining) b.shelf_life_expiry_date) bs

unfoldable pub allocatable_hus : Master → List Balance → List Balance
allocatable_hus m =
    keep λ b. blank b.place.handling_unit || not (m.hu_not_allocatable b.place.handling_unit)

-- `{t: i for i, t in enumerate(types)}[t]`
abbrev pub rank_from : ℕ → Name → List Name → Option ℕ
rank_from i t [] = none
rank_from i t (u ∷ types) = option_or (rank_from (i + 1) t types) (if u == t then some i else none)

abbrev bin_rank : Master → List Name → Balance → Option ℕ
bin_rank m types b =
    if is_set b.place.storage_bin
    then rank_from 0 (m.storage_type_of b.place.storage_bin) types
    else none

abbrev rank_less : Option ℕ → Option ℕ → Bool
rank_less (some i) (some j) = ltb i j
rank_less (some i) none = false
rank_less none r = false

-- `_by_removal_sequence`
unfoldable pub by_removal_sequence : Master → Delivery → Line → List Balance → List Balance
by_removal_sequence m d row bs =
    elim (m.removal_sequence d.warehouse row.item row.required_stock_type) [
      | none ↦ bs
      | some types ↦
          sorted (λ a b. rank_less (bin_rank m types a) (bin_rank m types b))
            (keep (λ b. is_some (bin_rank m types b)) bs)
    ]

abbrev bin_allocatable : Master → Balance → Bool
bin_allocatable m b =
    blank b.place.storage_bin
    || not (
        m.removal_blocked b.place.storage_bin
        || m.type_not_allocatable (m.storage_type_of b.place.storage_bin))

abbrev has_bins : List Balance → Bool
has_bins = any λ b. is_set b.place.storage_bin

unfoldable pub by_bins : Master → Delivery → Line → List Balance → List Balance
by_bins m d row bs =
    if not (has_bins bs)
    then bs
    else (let ranked = by_removal_sequence m d row bs in
        if not (has_bins ranked) then ranked else keep (bin_allocatable m) ranked)

-- The query with its order.
unfoldable pub queried : Master → Delivery → Line → List Balance → List Balance
queried m d row bs =
    if is_empty (from_option (1 ∷ []) (admitted_batches m row))
    then []
    else sorted fifo_less (keep (row_matches m d row) bs)

unfoldable pub candidate_balances :
    Master → Delivery → Line → List Balance → Result AllocationError (List Balance)
candidate_balances m d row bs = do
  ordered ← order_rows m d row (queried m d row bs)
  ok (by_bins m d row (allocatable_hus m (long_enough m d row ordered)))
