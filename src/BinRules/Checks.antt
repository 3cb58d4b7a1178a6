-- ===== src/BinRules/Checks.antt =====
-- The checks of frappe_wms/services/bin_rules.py: why a storage bin may not take what is put away.
use frappe_ewm.Base.{
  Bool, List, Option, Result, [], any, contains, eqb_ℤ, err, false, from_option, if◌then◌else◌,
  is_empty, is_set, ltb, ltb_ℤ, max_ℤ, min_ℤ, none, not, ok, or_name, pos, some, true, ℤ, ◌&&◌, ◌*◌,
  ◌++◌, ◌+ℤ◌, ◌+◌, ◌==◌, ◌||◌, ◌∷◌,
}
use frappe_ewm.BinRules.Types.{
  Advice, Bin, BinType, CapacityCheck, Held, HuRequirement, Incoming, Limits, Occupant, Reason,
  Size, StorageType, by_hu_count, by_quantity, by_volume, by_weight, dangerous_goods, hu_capacity,
  hu_needed, mandatory, no_check, no_fit, optional, other_batch, other_product, other_stock_type,
  quantity_capacity, type_limit, unusable, volume_capacity, weight_capacity, wrong_group,
  wrong_hu_type, wrong_stock_type,
}

abbrev pub reason_if : Bool → Reason → List Reason
reason_if test r = if test then r ∷ [] else []

-- `reasons.append(...)` and `reasons += ...`, check by check.
abbrev pub all_reasons : List (List Reason) → List Reason
all_reasons [] = []
all_reasons (r ∷ rs) = r ++ all_reasons rs

-- `a or b` on a limit.
abbrev or_limit : ℤ → ℤ → ℤ
or_limit a b = if eqb_ℤ a (pos 0) then b else a

abbrev no_limits : Limits
no_limits = record {
  maximum_hus = 0;
  maximum_weight = pos 0;
  maximum_volume = pos 0;
  maximum_quantity = pos 0;
}

abbrev type_limits : Option BinType → Limits
type_limits none = no_limits
type_limits (some t) = t.limits

-- A bin's own limits win; a stack of handling units counts before the bin type's.
unfoldable pub effective_limits : Bin → Limits
effective_limits b =
    let from_type = type_limits b.bin_type in
    record {
      maximum_hus =
          or_name b.limits.maximum_hus
            (or_name (b.stack_height * b.lane_depth) from_type.maximum_hus);
      maximum_weight = or_limit b.limits.maximum_weight from_type.maximum_weight;
      maximum_volume = or_limit b.limits.maximum_volume from_type.maximum_volume;
      maximum_quantity = or_limit b.limits.maximum_quantity from_type.maximum_quantity;
    }

abbrev is_sized : Size → Bool
is_sized s = ltb_ℤ (pos 0) s.length && (ltb_ℤ (pos 0) s.width && ltb_ℤ (pos 0) s.height)

-- `hu_fits_bin_type`: the footprint may turn, the height may not.
unfoldable pub hu_fits_bin_type : Size → Size → Bool
hu_fits_bin_type hu bin =
    if is_sized hu && is_sized bin
    then not (
        ltb_ℤ (max_ℤ bin.length bin.width) (max_ℤ hu.length hu.width)
        || (ltb_ℤ (min_ℤ bin.length bin.width) (min_ℤ hu.length hu.width)
            || ltb_ℤ bin.height hu.height))
    else true

-- `hu_requirement`
unfoldable pub hu_requirement_of : StorageType → HuRequirement
hu_requirement_of t = if t.hu_managed then mandatory else from_option optional t.hu_requirement

abbrev is_mandatory : HuRequirement → Bool
is_mandatory mandatory = true
is_mandatory other = false

-- The truth value of a number that may be left out.
abbrev pub is_given : Option ℤ → Bool
is_given none = false
is_given (some v) = not (eqb_ℤ v (pos 0))

-- A limit that is set and a value that is given and goes over it by more than the slack.
abbrev over : ℤ → ℤ → Option ℤ → ℤ → Bool
over slack held v limit =
    not (eqb_ℤ limit (pos 0))
    && (is_given v && ltb_ℤ (limit +ℤ slack) (held +ℤ from_option (pos 0) v))

-- The check that the storage type asks for.
unfoldable pub capacity_reasons : CapacityCheck → Limits → Held → Incoming → List Reason
capacity_reasons no_check limits held i = []
capacity_reasons by_hu_count limits held i =
    reason_if
      (is_set limits.maximum_hus && ltb limits.maximum_hus (held.hu_count + i.incoming_hu_count))
      hu_capacity
capacity_reasons by_weight limits held i =
    reason_if (over (pos 0) held.weight i.incoming_weight limits.maximum_weight) weight_capacity
capacity_reasons by_quantity limits held i =
    reason_if (over (pos 1) held.quantity i.incoming_quantity limits.maximum_quantity)
      quantity_capacity
capacity_reasons by_volume limits held i =
    reason_if (over (pos 0) held.volume i.incoming_volume limits.maximum_volume) volume_capacity

-- `mixing_violations`
unfoldable pub mixing_violations : Bool → StorageType → Held → Incoming → List Reason
mixing_violations enforced t held i =
    if not enforced
    then []
    else all_reasons (
        reason_if
          (is_set i.item
            && (not t.allow_mixed_products
                && any (λ (o : Occupant). not (o.product == i.item)) held.occupants))
          other_product
        ∷ reason_if
            (is_set i.stock_type
              && (not t.allow_mixed_stock_types
                  && any (λ (o : Occupant). not (o.stock_type == i.stock_type)) held.occupants))
            other_stock_type
        ∷ reason_if
            (is_set i.batch_no
              && (not t.allow_mixed_batches
                  && any (λ (o : Occupant). is_set o.batch_no && not (o.batch_no == i.batch_no))
                      held.occupants))
            other_batch
        ∷ [])

abbrev fits_type : Option BinType → Advice → Bool
fits_type none a = true
fits_type (some t) a = hu_fits_bin_type a.hu_size t.size

-- The checks of `bin_violations` on a bin that is in use.
unfoldable pub bin_checks : Bool → Bin → StorageType → Advice → Held → Incoming → List (List Reason)
bin_checks enforced b t a held i =
    reason_if
      (is_set i.stock_type
        && (not (is_empty b.allowed_stock_types)
            && not (contains i.stock_type b.allowed_stock_types)))
      wrong_stock_type
    ∷ reason_if
        (is_set i.hu_type
          && (not (is_empty b.allowed_hu_types) && not (contains i.hu_type b.allowed_hu_types)))
        wrong_hu_type
    ∷ reason_if
        (is_set i.item && (not (is_empty a.groups) && not (contains b.storage_group a.groups)))
        wrong_group
    ∷ reason_if (is_set i.item && (is_given i.incoming_quantity && a.over_type_limit)) type_limit
    ∷ reason_if a.dangerous dangerous_goods
    ∷ reason_if (is_set i.hu_type && (t.hu_type_check && not (fits_type b.bin_type a))) no_fit
    ∷ capacity_reasons t.capacity_check_method (effective_limits b) held i
    ∷ reason_if
        (i.require_hu && (is_mandatory (hu_requirement_of t) && not (is_set i.destination_hu)))
        hu_needed
    ∷ mixing_violations enforced t held i
    ∷ []

-- `bin_violations`
unfoldable pub bin_violations : Bool → Bin → StorageType → Advice → Held → Incoming → List Reason
bin_violations enforced b t a held i =
    if not b.active || b.putaway_blocked
    then unusable ∷ []
    else all_reasons (bin_checks enforced b t a held i)

-- `frappe.throw` with the reasons, if there are any.
abbrev pub checked : List Reason → Result (List Reason) (Unit {0})
checked [] = ok tt
checked (r ∷ reasons) = err (r ∷ reasons)

-- `validate_destination_bin`
unfoldable pub validate_destination_bin :
    Bool → Bin → StorageType → Advice → Held → Incoming → Result (List Reason) (Unit {0})
validate_destination_bin enforced b t a held i = checked (bin_violations enforced b t a held i)
