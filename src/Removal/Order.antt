-- ===== src/Removal/Order.antt =====
-- What the strategies of frappe_wms/services/removal_rules.py promise about the order of the rows.
use mathlib.Core.List.{Perm}
use mathlib.Core.List.Perm
use frappe_ewm.Base.{
  >>=-eq-ok, Has, IsSorted, List, arith, err, false, inl, inr, is_some, lex, not, ok, sorted,
  sorted-IsSorted, sorted-lex, sorted-perm, true, ◌↔◌, ◌≡◌,
}
use frappe_ewm.Removal.{
  expiry_less, fifo_before, fifo_less, strategy_fefo, strategy_fifo, strategy_lifo, type_error,
}
use frappe_ewm.Removal.Dates.{
  Alike-cases, fifo_before-alike, fifo_before-mixed, sorted_by-Alike, sorted_by-mixed,
  sorted_by-sorted,
}
use frappe_ewm.Stock.Types.{Balance}

fifo_less-asym : (a b : Balance) → fifo_less a b ≡ true → fifo_less b a ≡ false
fifo_less-asym a b h = ground arith

fifo_less-cotrans :
    (a b c : Balance) → fifo_less a b ≡ false → fifo_less b c ≡ false → fifo_less a c ≡ false
fifo_less-cotrans a b c h k = ground arith

expiry_less-asym : (a b : Balance) → expiry_less a b ≡ true → expiry_less b a ≡ false
expiry_less-asym a b h = ground arith

expiry_less-cotrans :
    (a b c : Balance) → expiry_less a b ≡ false → expiry_less b c ≡ false → expiry_less a c ≡ false
expiry_less-cotrans a b c h k = ground arith

-- FIFO, where it does not refuse, returns the same rows, the oldest receipt first and the lower
-- name first among equal dates.
strategy_fifo-IsSorted :
    (bs : List Balance) {out : List Balance}
    → strategy_fifo bs ≡ ok out
    → IsSorted fifo_less out × Perm out bs
unfolding strategy_fifo
strategy_fifo-IsSorted bs {out} h =
    let same =
      sorted_by-sorted fifo_before fifo_less fifo_before-alike fifo_before-mixed bs {out = out} h in
    rw (← same)
      (sorted-IsSorted fifo_less fifo_less-asym fifo_less-cotrans bs, sorted-perm fifo_less bs)

-- LIFO, where it does not refuse, returns the same rows in the opposite order of FIFO.
strategy_lifo-IsSorted :
    (bs : List Balance) {out : List Balance}
    → strategy_lifo bs ≡ ok out
    → IsSorted (λ a b. fifo_less b a) out × Perm out bs
unfolding strategy_lifo
strategy_lifo-IsSorted bs {out} h =
    let same =
      sorted_by-sorted (λ a b. fifo_before b a) (λ a b. fifo_less b a)
        (λ k a b p q. fifo_before-alike k b a q p)
        (λ k a b p q. fifo_before-mixed (not k) b a q (ground arith)) bs {out = out} h in
    rw (← same) (
      sorted-IsSorted (λ a b. fifo_less b a) (λ a b. fifo_less-asym b a)
          (λ a b c p q. fifo_less-cotrans c b a q p) bs,
      sorted-perm (λ a b. fifo_less b a) bs,
    )

-- FEFO, where it does not refuse, returns the same rows: the sooner expiry first, rows with no
-- expiry last, and FIFO among rows that expire together.
pub strategy_fefo-IsSorted :
    (bs : List Balance) {out : List Balance}
    → strategy_fefo bs ≡ ok out
    → IsSorted (lex expiry_less fifo_less) out × Perm out bs
unfolding strategy_fefo
strategy_fefo-IsSorted bs {out} h =
    let (base, fifo, last) =
      >>=-eq-ok (strategy_fifo bs) (λ base. ok (sorted expiry_less base)) {b = out} h in
    let (in_order, same_rows) = strategy_fifo-IsSorted bs fifo in
    let same : sorted expiry_less base ≡ out = cc last in
    rw (← same) (
      sorted-lex expiry_less fifo_less expiry_less-asym expiry_less-cotrans base in_order,
      Perm.trans (sorted-perm expiry_less base) same_rows,
    )

-- FIFO refuses exactly the lists in which some rows have a receipt date and some have none.
pub strategy_fifo-refuses :
    (bs : List Balance)
    → (strategy_fifo bs ≡ err type_error) ↔ (
        Has (λ (b : Balance). is_some b.first_receipt_date ≡ true) bs
        × Has (λ (b : Balance). is_some b.first_receipt_date ≡ false) bs)
unfolding strategy_fifo
strategy_fifo-refuses bs = (
  λ refused. elim (Alike-cases bs) [
    | inl (k, alike) ↦
        cc (refused, sorted_by-Alike fifo_before fifo_less fifo_before-alike k bs alike)
    | inr mixed ↦ mixed
  ],
  λ mixed.
      sorted_by-mixed fifo_before fifo_less fifo_before-alike fifo_before-mixed bs mixed.0 mixed.1,
)
