-- ===== src/BinRules/Capacity.antt =====
-- What a bin that passes the checks of frappe_wms/services/bin_rules.py has.
use frappe_ewm.Base.{
  +ℤ_zero, All, All-map, Bool, Bool-cases, List, Option, [], any, any-false, arith, eqb_ℤ, false,
  from_option, inl, inr, is_set, ltb_ℤ, not, ok, pos, refl, subst, true, ℤ, ◌&&◌, ◌++◌, ◌+ℤ◌, ◌+◌,
  ◌==◌, ◌||◌, ◌∷◌, ◌≡◌, ◌≤ℤ◌,
}
use frappe_ewm.BinRules.Checks.{
  all_reasons, bin_checks, bin_violations, capacity_reasons, checked, effective_limits, is_given,
  mixing_violations, reason_if, validate_destination_bin,
}
use frappe_ewm.BinRules.Types.{
  Advice, Bin, CapacityCheck, Held, Incoming, Limits, Occupant, Reason, StorageType, by_hu_count,
  by_quantity, by_volume, by_weight, no_check, other_product, quantity_capacity, volume_capacity,
  weight_capacity,
}

all_reasons-nil : (rs : List (List Reason)) → all_reasons rs ≡ [] → All (λ r. r ≡ []) rs
all_reasons-nil [] h = tt
all_reasons-nil ([] ∷ rs) h = (refl, all_reasons-nil rs h)
all_reasons-nil ((r ∷ more) ∷ rs) h = cc

-- What the storage type checks would be in the bin afterwards.
abbrev pub amount : CapacityCheck → Held → Incoming → ℤ
amount no_check held i = pos 0
amount by_hu_count held i = pos (held.hu_count + i.incoming_hu_count)
amount by_weight held i = held.weight +ℤ from_option (pos 0) i.incoming_weight
amount by_quantity held i = held.quantity +ℤ from_option (pos 0) i.incoming_quantity
amount by_volume held i = held.volume +ℤ from_option (pos 0) i.incoming_volume

-- The most that the bin may hold of it, with the tolerance of a millionth on quantities.
abbrev pub room : CapacityCheck → Limits → ℤ
room no_check l = pos 0
room by_hu_count l = pos l.maximum_hus
room by_weight l = l.maximum_weight
room by_quantity l = l.maximum_quantity +ℤ pos 1
room by_volume l = l.maximum_volume

-- There is a limit, and the caller says what comes in.
abbrev pub is_limited : CapacityCheck → Limits → Incoming → Bool
is_limited no_check l i = false
is_limited by_hu_count l i = is_set l.maximum_hus
is_limited by_weight l i = not (eqb_ℤ l.maximum_weight (pos 0)) && is_given i.incoming_weight
is_limited by_quantity l i = not (eqb_ℤ l.maximum_quantity (pos 0)) && is_given i.incoming_quantity
is_limited by_volume l i = not (eqb_ℤ l.maximum_volume (pos 0)) && is_given i.incoming_volume

reason_if-nil : (test : Bool) (r : Reason) → reason_if test r ≡ [] → test ≡ false
reason_if-nil true r h = cc
reason_if-nil false r h = refl

fits_below :
    (slack held limit : ℤ) (v : Option ℤ)
    → (not (eqb_ℤ limit (pos 0)) && is_given v) ≡ true
    → (not (eqb_ℤ limit (pos 0))
        && (is_given v && ltb_ℤ (limit +ℤ slack) (held +ℤ from_option (pos 0) v)))
      ≡ false
    → held +ℤ from_option (pos 0) v ≤ℤ limit +ℤ slack
fits_below slack held limit v h k = elim (Bool-cases (not (eqb_ℤ limit (pos 0)))) [
  | inl on ↦ elim (Bool-cases (is_given v)) [
    | inl given ↦ let under = rw (on, given) at k in ground arith
    | inr absent ↦ cc (rw (on, absent) at h)
  ]
  | inr off ↦ cc (rw off at h)
]

capacity_reasons-nil :
    (m : CapacityCheck) (l : Limits) (held : Held) (i : Incoming)
    → is_limited m l i ≡ true
    → capacity_reasons m l held i ≡ []
    → amount m held i ≤ℤ room m l
unfolding capacity_reasons
capacity_reasons-nil no_check l held i h k = cc h
capacity_reasons-nil by_hu_count l held i h k = let under = reason_if-nil _ _ k in ground arith
capacity_reasons-nil by_weight l held i h k =
    subst (λ r. amount by_weight held i ≤ℤ r) (+ℤ_zero l.maximum_weight)
      (fits_below (pos 0) held.weight l.maximum_weight i.incoming_weight h
        (reason_if-nil _ weight_capacity k))
capacity_reasons-nil by_quantity l held i h k =
    fits_below (pos 1) held.quantity l.maximum_quantity i.incoming_quantity h
      (reason_if-nil _ quantity_capacity k)
capacity_reasons-nil by_volume l held i h k =
    subst (λ r. amount by_volume held i ≤ℤ r) (+ℤ_zero l.maximum_volume)
      (fits_below (pos 0) held.volume l.maximum_volume i.incoming_volume h
        (reason_if-nil _ volume_capacity k))

no_reason : (rs : List Reason) → checked rs ≡ ok tt → rs ≡ []
no_reason [] e = refl
no_reason (r ∷ rs) e = cc e

head_nil : (xs ys : List Reason) → xs ++ ys ≡ [] → xs ≡ []
head_nil [] ys h = refl
head_nil (x ∷ xs) ys h = cc h

-- A bin that passes is in use, and none of the checks has a reason against it.
passes :
    (enforced : Bool) (b : Bin) (t : StorageType) (a : Advice) (held : Held) (i : Incoming)
    → validate_destination_bin enforced b t a held i ≡ ok tt
    → (b.active ≡ true)
      × (b.putaway_blocked ≡ false)
      × All (λ r. r ≡ []) (bin_checks enforced b t a held i)
unfolding validate_destination_bin bin_violations
passes enforced b t a held i h = elim (Bool-cases (not b.active || b.putaway_blocked)) [
  | inl closed ↦ cc (rw closed at h)
  | inr in_use ↦ (ground arith, ground arith, all_reasons-nil _ (no_reason _ (rw in_use at h)))
]

capacity_check :
    (enforced : Bool) (b : Bin) (t : StorageType) (a : Advice) (held : Held) (i : Incoming)
    → All (λ r. r ≡ []) (bin_checks enforced b t a held i)
    → capacity_reasons t.capacity_check_method (effective_limits b) held i ≡ []
unfolding bin_checks
capacity_check enforced b t a held i checks = checks.1.1.1.1.1.1.0

mixing_check :
    (enforced : Bool) (b : Bin) (t : StorageType) (a : Advice) (held : Held) (i : Incoming)
    → All (λ r. r ≡ []) (bin_checks enforced b t a held i)
    → mixing_violations enforced t held i ≡ []
unfolding bin_checks
mixing_check enforced b t a held i checks = checks.1.1.1.1.1.1.1.1.0

-- Where the storage type checks a limit that is set and the caller says what comes in, a bin that
-- passes the checks is active and not blocked, and what it would hold afterwards is within the
-- limit, with a tolerance of a millionth on quantities.
pub validate_destination_bin-fits :
    (enforced : Bool) (b : Bin) (t : StorageType) (a : Advice) (held : Held) (i : Incoming)
    → is_limited t.capacity_check_method (effective_limits b) i ≡ true
    → validate_destination_bin enforced b t a held i ≡ ok tt
    → (b.active ≡ true)
      × (b.putaway_blocked ≡ false)
      × (amount t.capacity_check_method held i ≤ℤ room t.capacity_check_method (effective_limits b))
validate_destination_bin-fits enforced b t a held i limited h =
    let (active, free, checks) = passes enforced b t a held i h in
    (
      active,
      free,
      capacity_reasons-nil t.capacity_check_method (effective_limits b) held i limited
          (capacity_check enforced b t a held i checks),
    )

unmixed :
    (t : StorageType) (held : Held) (i : Incoming)
    → is_set i.item ≡ true
    → t.allow_mixed_products ≡ false
    → mixing_violations true t held i ≡ []
    → any (λ (o : Occupant). not (o.product == i.item)) held.occupants ≡ false
unfolding mixing_violations
unmixed t held i named strict h =
    let strangers = any (λ (o : Occupant). not (o.product == i.item)) held.occupants in
    reason_if-nil strangers other_product
      (head_nil (reason_if strangers other_product) _ (rw (named, strict) at h))

-- Where mixing rules are enforced and the storage type does not allow mixed products, a bin that
-- passes the checks for a product holds only that product.
validate_destination_bin-unmixed :
    (b : Bin) (t : StorageType) (a : Advice) (held : Held) (i : Incoming)
    → is_set i.item ≡ true
    → t.allow_mixed_products ≡ false
    → validate_destination_bin true b t a held i ≡ ok tt
    → All (λ (o : Occupant). o.product ≡ i.item) held.occupants
validate_destination_bin-unmixed b t a held i named strict h =
    let (active, free, checks) = passes true b t a held i h in
    All-map (λ (o : Occupant). not (o.product == i.item) ≡ false)
      (λ (o : Occupant). o.product ≡ i.item) held.occupants (λ o same. ground arith)
      ((any-false _ held.occupants).0
        (unmixed t held i named strict (mixing_check true b t a held i checks)))
