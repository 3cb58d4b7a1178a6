-- ===== src/Determination/Allowed.antt =====
-- Which bins the search of frappe_wms/services/determination.py chooses from.
use frappe_ewm.Base.{
  All, All-keep, All-map, All-map2, All-sorted, Bool, Bool-cases, Has, List, Name, Option-cases, [],
  arith, if◌then◌else◌, inl, inr, is_set, keep, keep-All, not, ok, refl, some, subst, true, ◌&&◌,
  ◌==◌, ◌∷◌, ◌≡◌,
}
use frappe_ewm.Determination.Destination.{candidate_bins, filter_by_section, is_listed, is_usable}
use frappe_ewm.Determination.Strategy.{
  Carry, apply_bin_strategy, custom_bin, first_bin, holding, is_custom, near_fixed, or_list, ranked,
}
use frappe_ewm.Determination.Types.{
  Bin, Context, Session, Strategy, addition_to_existing_stock, bin_sequence, bulk, custom,
  first_empty_bin, general_storage, least_utilized_bin, manual_selection, near_fixed_bin,
  other_strategy, pallet,
}

-- The filters and tests of `_candidate_bins_for_storage_type`, apart from storage type and section.
abbrev pub is_allowed : Session → Context → Bin → Bool
is_allowed s c b =
    (b.warehouse == c.warehouse) && b.active && not b.putaway_blocked && is_usable s c b

-- A bin with the name is there and allowed.
abbrev pub IsPlace : Session → Context → Name → Type 0
IsPlace s c n = Has (λ b. (b.name ≡ n) × (is_allowed s c b ≡ true)) s.bins

-- A strategy of another app returns some of the bins that it is given.
abbrev pub Selects : Session → Type 1
Selects s =
    (n : Name) (f : List Bin → List Bin)
    → s.custom_strategy n ≡ some f
    → (P : Bin → Type 0) (bins : List Bin) → All P bins
    → All P (f bins)

passing_itself :
    (p : Bin → Bool) (bins : List Bin)
    → All (λ b. p b ≡ true → Has (λ x. (x.name ≡ b.name) × (p x ≡ true)) bins) bins
passing_itself p [] = tt
passing_itself p (b ∷ bins) = (
  λ h. inl (refl, h),
  All-map (λ x. p x ≡ true → Has (λ y. (y.name ≡ x.name) × (p y ≡ true)) bins)
      (λ x. p x ≡ true → Has (λ y. (y.name ≡ x.name) × (p y ≡ true)) (b ∷ bins)) bins
      (λ x f h. inr (f h)) (passing_itself p bins),
)

or_list-All :
    (P : Bin → Type 0) (as_list bs : List Bin)
    → All P as_list
    → All P bs
    → All P (or_list as_list bs)
or_list-All P [] bs h k = k
or_list-All P (a ∷ as_list) bs h k = h

first_bin-All :
    (P : Name → Type 0) (bins : List Bin) {n : Name}
    → All (λ b. P b.name) bins
    → first_bin bins ≡ some n
    → P n
first_bin-All P [] h first = cc
first_bin-All P (b ∷ bins) {n} h first = let same : b.name ≡ n = cc first in subst P same h.0

module _ (s : Session) (c : Context) where
  filter_by_section-All :
      (P : Bin → Type 0) (t indicator : Name) (bins : List Bin)
      → All P bins
      → All P (filter_by_section s t indicator bins)
  unfolding filter_by_section
  filter_by_section-All P t indicator bins h =
      or_list-All P _ _ (All-keep P _ bins h) (All-keep P _ bins h)

  allowed :
      (b : Bin) (t section group : Name)
      → is_listed c.warehouse t section group b ≡ true
      → is_usable s c b ≡ true
      → is_allowed s c b ≡ true
  unfolding is_listed
  allowed b t section group listed usable = ground arith

  pub candidate_bins-IsPlace :
      (t section group : Name) → All (λ b. IsPlace s c b.name) (candidate_bins s c t section group)
  unfolding candidate_bins
  candidate_bins-IsPlace t section group =
      let over = is_set c.item && s.over_type_quantity c t in
      let indicator = if is_set c.item then s.section_indicator c.item c.warehouse else 0 in
      let listed = is_listed c.warehouse t section group in
      let P : Bin → Type 0 =
        λ b. (is_allowed s c b ≡ true → IsPlace s c b.name) × (listed b ≡ true) in
      let some_listed : All P (keep listed s.bins) =
        All-map2 (λ b. is_allowed s c b ≡ true → IsPlace s c b.name) (λ b. listed b ≡ true) P
          (keep listed s.bins) (λ b f h. (f, h))
          (All-keep _ listed s.bins (passing_itself (is_allowed s c) s.bins))
          (keep-All listed s.bins) in
      let found = filter_by_section s t indicator (keep listed s.bins) in
      elim (Bool-cases over) [
        | inl full ↦ rw full tt
        | inr room ↦ rw room (
            All-map2 P (λ b. is_usable s c b ≡ true) (λ b. IsPlace s c b.name)
              (keep (is_usable s c) found) (λ b f h. f.0 (allowed b t section group f.1 h))
              (All-keep P (is_usable s c) found
                (filter_by_section-All P t indicator (keep listed s.bins) some_listed))
              (keep-All (is_usable s c) found))
      ]

  ranked-All :
      (P : Bin → Type 0) (k : Carry) (strategy : Strategy) (bins : List Bin)
      → All P bins
      → All P (ranked s c k strategy bins)
  unfolding ranked near_fixed holding
  ranked-All P k least_utilized_bin bins h = All-sorted _ P bins h
  ranked-All P k bin_sequence bins h = All-sorted _ P bins h
  ranked-All P k general_storage bins h = All-sorted _ P bins h
  ranked-All P k first_empty_bin bins h =
      All-sorted _ P _ (or_list-All P _ _ (All-keep P _ bins h) h)
  ranked-All P k pallet bins h = All-sorted _ P _ (or_list-All P _ _ (All-keep P _ bins h) h)
  ranked-All P k addition_to_existing_stock bins h =
      All-sorted _ P _ (or_list-All P _ _ (All-keep P _ bins h) h)
  ranked-All P k bulk bins h = All-sorted _ P _ (or_list-All P _ _ (All-keep P _ bins h) h)
  ranked-All P k near_fixed_bin bins h = elim (Bool-cases (is_set k.fixed_bin)) [
    | inl fixed ↦ rw fixed (
        or_list-All P _ _ (All-keep P _ bins h)
          (All-sorted _ P _ (or_list-All P _ _ (All-keep P _ bins h) h)))
    | inr loose ↦ rw loose (All-sorted _ P bins h)
  ]
  ranked-All P k custom bins h = h
  ranked-All P k manual_selection bins h = h
  ranked-All P k other_strategy bins h = h

  pub apply_bin_strategy-All :
      (P : Name → Type 0) (k : Carry) (strategy : Strategy) (bins : List Bin) {n : Name}
      → Selects s
      → All (λ b. P b.name) bins
      → apply_bin_strategy s c k strategy bins ≡ ok (some n)
      → P n
  unfolding apply_bin_strategy custom_bin
  apply_bin_strategy-All P k strategy bins {n} selects h goes =
      elim (Bool-cases (is_custom strategy)) [
        | inr usual ↦
            let first : first_bin (ranked s c k strategy bins) ≡ some n = cc (rw usual at goes) in
            first_bin-All P (ranked s c k strategy bins)
              (ranked-All (λ b. P b.name) k strategy bins h) first
        | inl own ↦ elim (Option-cases (s.custom_strategy k.custom_name)) [
          | inl unknown ↦ cc (rw (own, unknown) at goes)
          | inr (f, known) ↦
              let first : first_bin (f bins) ≡ some n = cc (rw (own, known) at goes) in
              first_bin-All P (f bins) (selects k.custom_name f known (λ b. P b.name) bins h) first
        ]
      ]
