-- ===== src/Determination/Strategy.antt =====
-- `_apply_bin_strategy` of frappe_wms/services/determination.py.
use frappe_ewm.Base.{
  Bool, List, Name, Option, Result, [], err, false, if◌then◌else◌, is_set, keep, ltb, none, ok,
  some, sorted, true, ◌&&◌, ◌+◌, ◌==◌, ◌∷◌,
}
use frappe_ewm.Determination.Types.{
  Bin, Context, DeterminationError, Session, Strategy, addition_to_existing_stock, bin_sequence,
  bulk, custom, first_empty_bin, general_storage, least_utilized_bin, manual_selection,
  near_fixed_bin, other_strategy, pallet, unknown_strategy,
}

abbrev pub first_bin : List Bin → Option Name
first_bin [] = none
first_bin (b ∷ bs) = some b.name

-- `a or b` on lists.
abbrev pub or_list : List Bin → List Bin → List Bin
or_list [] bs = bs
or_list (a ∷ as_list) bs = a ∷ as_list

abbrev pub by_sequence : Bin → Bin → Bool
by_sequence a b = ltb a.sequence b.sequence

abbrev pub by_hus : Session → Bin → Bin → Bool
by_hus s a b = ltb (s.live_hu_count a.name) (s.live_hu_count b.name)

-- More room left first; a bin without a limit has the most.
unfoldable pub by_room : Session → Bin → Bin → Bool
by_room s a b =
    if b.maximum_hus == 0
    then false
    else if a.maximum_hus == 0
    then true
    else ltb (b.maximum_hus + s.live_hu_count a.name) (a.maximum_hus + s.live_hu_count b.name)

unfoldable pub holding : Session → Name → List Bin → List Bin
holding s item bins = keep (λ b. s.holds b.name item) bins

unfoldable pub near_fixed : Session → Name → List Bin → List Bin
near_fixed s fixed bins =
    let exact = keep (λ b. b.name == fixed) bins in
    let aisle = s.bin_aisle fixed in
    let near = keep (λ b. is_set aisle && (b.aisle == aisle)) bins in
    if is_set fixed
    then or_list exact (sorted by_sequence (or_list near bins))
    else sorted by_sequence bins

-- What the rules leave behind in `context`: `_fixed_bin` and `_custom_strategy`.
pub record Carry : Type 0 where
  pub fixed_bin : Name
  pub custom_name : Name

-- The bins of a strategy other than "Custom", best first.
unfoldable pub ranked : Session → Context → Carry → Strategy → List Bin → List Bin
ranked s c k least_utilized_bin bins = sorted (by_hus s) bins
ranked s c k bin_sequence bins = sorted by_sequence bins
ranked s c k general_storage bins = sorted by_sequence bins
ranked s c k first_empty_bin bins =
    sorted by_sequence (or_list (keep (λ b. s.live_hu_count b.name == 0) bins) bins)
ranked s c k pallet bins =
    sorted by_sequence (or_list (keep (λ b. s.live_hu_count b.name == 0) bins) bins)
ranked s c k addition_to_existing_stock bins =
    sorted by_sequence (or_list (holding s c.item bins) bins)
ranked s c k bulk bins = sorted (by_room s) (or_list (holding s c.item bins) bins)
ranked s c k near_fixed_bin bins = near_fixed s k.fixed_bin bins
ranked s c k custom bins = bins
ranked s c k manual_selection bins = bins
ranked s c k other_strategy bins = bins

abbrev pub is_custom : Strategy → Bool
is_custom custom = true
is_custom _ = false

unfoldable pub custom_bin :
    Option (List Bin → List Bin) → List Bin → Result DeterminationError (Option Name)
custom_bin none bins = err unknown_strategy
custom_bin (some f) bins = ok (first_bin (f bins))

-- `_apply_bin_strategy`
unfoldable pub apply_bin_strategy :
    Session → Context → Carry → Strategy → List Bin → Result DeterminationError (Option Name)
apply_bin_strategy s c k strategy bins =
    if is_custom strategy
    then custom_bin (s.custom_strategy k.custom_name) bins
    else ok (first_bin (ranked s c k strategy bins))
