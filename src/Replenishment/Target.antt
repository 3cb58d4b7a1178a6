-- ===== src/Replenishment/Target.antt =====
-- How much a rule of frappe_wms/services/replenishment.py asks for.
use frappe_ewm.Base.{
  +ℤ_parts, All, All-sorted, Bool-cases, List, Name, Option-cases, [], all, arith, false, inl, inr,
  keep, keep-All, leb_ℤ, ltb_ℤ, min_ℤ, pos, some, sorted, subst, true, ℤ, ◌+ℤ◌, ◌-ℤ◌, ◌<ℤ◌, ◌∷◌,
  ◌≡◌, ◌≤ℤ◌, -ℤ_parts,
}
use frappe_ewm.Replenishment.Request.{rule_quantity}
use frappe_ewm.Replenishment.Source.{
  best_source_bin, current_quantity, first, is_source, more_available, pending_request_exists,
}
use frappe_ewm.Replenishment.Types.{Rule, Session, World}
use frappe_ewm.Stock.Types.{Balance}

first-All :
    (P : Balance → Type 0) (bs : List Balance) {b : Balance} → All P bs → first bs ≡ some b → P b
first-All P [] all found = cc found
first-All P (x ∷ xs) {b} all found = let same : x ≡ b = cc found in subst P same all.0

best_source_bin-source :
    (s : Session) (warehouse product storage_type stock_type exclude : Name) (bs : List Balance)
    {b : Balance}
    → best_source_bin s warehouse product storage_type stock_type exclude bs ≡ some b
    → is_source s warehouse product storage_type stock_type exclude b ≡ true
unfolding best_source_bin
best_source_bin-source s warehouse product storage_type stock_type exclude bs found =
    let test = is_source s warehouse product storage_type stock_type exclude in
    first-All (λ b. test b ≡ true) (sorted more_available (keep test bs))
      (All-sorted more_available (λ b. test b ≡ true) (keep test bs) (keep-All test bs)) found

-- What a rule asks for is positive, is asked for only at or below the minimum while no request of
-- the rule is pending, comes from a row that may be a source, does not exceed what that row has
-- available, and does not lift the bin over the rule's target.
pub rule_quantity-target :
    (s : Session) (rule : Rule) (w : World) {found : Balance × ℤ}
    → rule_quantity s rule w ≡ some found
    → let current =
        current_quantity rule.warehouse rule.product rule.storage_bin rule.stock_type w.balances in
      (current ≤ℤ rule.minimum_quantity)
      × (pending_request_exists rule.name w.requests ≡ false)
      × (is_source s rule.warehouse rule.product rule.source_storage_type rule.stock_type
            rule.storage_bin found.0
          ≡ true)
      × (pos 0 <ℤ found.1)
      × (found.1 ≤ℤ found.0.available_quantity)
      × (current +ℤ found.1 ≤ℤ rule.target_quantity)
unfolding rule_quantity
rule_quantity-target s rule w {found} goes =
    let current =
      current_quantity rule.warehouse rule.product rule.storage_bin rule.stock_type w.balances in
    let sources =
      best_source_bin s rule.warehouse rule.product rule.source_storage_type rule.stock_type
        rule.storage_bin w.balances in
    elim (Bool-cases (ltb_ℤ rule.minimum_quantity current)) [
      | inl enough ↦ cc (rw enough at goes)
      | inr low ↦ elim (Bool-cases (pending_request_exists rule.name w.requests)) [
        | inl under_way ↦ cc (rw (low, under_way) at goes)
        | inr no_request ↦ elim (Option-cases sources) [
          | inl no_source_bin ↦ cc (rw (low, no_request, no_source_bin) at goes)
          | inr (source, there) ↦ elim (Bool-cases (leb_ℤ source.available_quantity (pos 0))) [
            | inl used_up ↦ cc (rw (low, no_request, there, used_up) at goes)
            | inr available ↦
                let qty = min_ℤ (rule.target_quantity -ℤ current) source.available_quantity in
                elim (Bool-cases (leb_ℤ qty (pos 0))) [
                  | inl nothing ↦ cc (rw (low, no_request, there, available, nothing) at goes)
                  | inr something ↦
                      let same : (source, qty) ≡ found =
                        cc (rw (low, no_request, there, available, something) at goes) in
                      subst
                        (λ f.
                          (current ≤ℤ rule.minimum_quantity)
                          × (pending_request_exists rule.name w.requests ≡ false)
                          × (is_source s rule.warehouse rule.product rule.source_storage_type
                                rule.stock_type rule.storage_bin f.0
                              ≡ true)
                          × (pos 0 <ℤ f.1)
                          × (f.1 ≤ℤ f.0.available_quantity)
                          × (current +ℤ f.1 ≤ℤ rule.target_quantity))
                        same
                        (
                          ground arith,
                          no_request,
                          best_source_bin-source s rule.warehouse rule.product
                              rule.source_storage_type rule.stock_type rule.storage_bin w.balances
                              there,
                          not_less qty something,
                          min_right (rule.target_quantity -ℤ current) source.available_quantity,
                          up_to current rule.target_quantity qty (
                              min_left (rule.target_quantity -ℤ current) source.available_quantity),
                        )
                ]
          ]
        ]
      ]
    ]
  where
    not_less : (q : ℤ) → leb_ℤ q (pos 0) ≡ false → pos 0 <ℤ q
    not_less q h = ground arith

    min_left : (a b : ℤ) → min_ℤ a b ≤ℤ a
    min_left a b = ground arith

    min_right : (a b : ℤ) → min_ℤ a b ≤ℤ b
    min_right a b = ground arith

    up_to : (c t q : ℤ) → q ≤ℤ t -ℤ c → c +ℤ q ≤ℤ t
    up_to c t q h = ground (arith, -ℤ_parts t c, +ℤ_parts c q)
