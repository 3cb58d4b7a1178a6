-- ===== src/DeliverySplit/Conserve.antt =====
-- The quantities that frappe_wms/services/delivery_split.py moves.
use frappe_ewm.Base.{
  +ℤ_comm, +ℤ_zero, >>=-eq-ok, All, All-map, All-map2, Bool, Bool-cases, List, Name, [], all,
  any-false, ap, arith, eqb_ℤ, false, inl, inr, int_laws, leb_ℤ, map, not, ok, pos, refl, subst,
  throw_if, throw_if-eq-ok, true, ℤ, ◌+ℤ◌, ◌-ℤ◌, ◌==◌, ◌>>=◌, ◌>>◌, ◌∙◌, ◌∷◌, ◌≡◌, ◌≢◌, ◌≤ℤ◌,
  -ℤ_parts,
}
use frappe_ewm.DeliverySplit.{
  Delivery, Line, cannot_split, check_moves, collect_moves, everything, find_line, lower_line,
  lower_lines, moved_of, new_line, not_open, not_permitted, over_movable, split_collected,
  split_moves, split_outbound_delivery, touched,
}
use frappe_ewm.DeliverySplit.Moves.{
  CanMove, Distinct, IsOpen, collect_moves-Distinct, find_line-lower, moved_total,
  over_movable-CanMove, requested,
}

touched-lowered :
    (r : Line) (q : ℤ)
    → touched (record r { requested_quantity = r.requested_quantity -ℤ q }) ≡ touched r
unfolding touched
touched-lowered r q = refl

gone_sum :
    (t q a s : ℤ) → pos 0 ≤ℤ t → q ≤ℤ a -ℤ t → leb_ℤ (a -ℤ q) (pos 0) ≡ true → s +ℤ q ≡ a +ℤ s
gone_sum t q a s low fit gone =
    let le : a -ℤ q ≤ℤ pos 0 = ground arith in
    let same : a ≡ q = omega (int_laws, -ℤ_parts a t, -ℤ_parts a q, low, fit, le) in
    rw same (+ℤ_comm s q)

stays_sum : (q a s : ℤ) → a -ℤ q +ℤ s +ℤ q ≡ a +ℤ s
stays_sum q a s = grind int_laws

left_over : (a t q : ℤ) → q ≤ℤ a -ℤ t → t ≤ℤ a -ℤ q
left_over a t q h = ground (arith, -ℤ_parts a t, -ℤ_parts a q)

-- Lowering one line by what may leave it takes that much from the total and keeps lines well formed.
lower_line-total :
    (n : Name) (q : ℤ) (rows : List Line)
    → All IsOpen rows
    → CanMove rows (n, q)
    → All IsOpen (lower_line n q rows) × (requested (lower_line n q rows) +ℤ q ≡ requested rows)
unfolding lower_line find_line
lower_line-total n q [] h (r, found, fits) = cc found
lower_line-total n q (r ∷ rs) h (r1, found, fits) = elim (Bool-cases (r.name == n)) [
  | inl here ↦
      let same : r ≡ r1 = ground arith in
      let (low, _) = h.0 in
      let fit : q ≤ℤ r.requested_quantity -ℤ touched r = rw same fits in
      elim (Bool-cases (leb_ℤ (r.requested_quantity -ℤ q) (pos 0))) [
        | inl gone ↦
            rw (here, gone)
              (h.1, gone_sum (touched r) q r.requested_quantity (requested rs) low fit gone)
        | inr stays ↦
            rw (here, stays)
              (
                (
                  (
                    rw (touched-lowered r q) low,
                    rw (touched-lowered r q) (left_over r.requested_quantity (touched r) q fit),
                  ),
                  h.1,
                ),
                stays_sum q r.requested_quantity (requested rs),
              )
      ]
  | inr other ↦
      let (keeps, total) = lower_line-total n q rs h.1 (r1, rw other at found, fits) in
      rw other ((h.0, keeps), grind (int_laws, total))
]

CanMove-lower :
    (n : Name) (q : ℤ) (rows : List Line) (m : Name × ℤ)
    → CanMove rows m
    → m.0 ≢ n
    → CanMove (lower_line n q rows) m
CanMove-lower n q rows (m, q1) (r, found, fits) other =
    (r, find_line-lower n m q rows other ∙ found, fits)

sums : (a b q c d : ℤ) → a +ℤ b ≡ c → c +ℤ q ≡ d → a +ℤ (q +ℤ b) ≡ d
sums a b q c d h k = grind int_laws

lower_lines-total :
    (moves : List (Name × ℤ)) (rows : List Line)
    → Distinct moves
    → All IsOpen rows
    → All (CanMove rows) moves
    → All IsOpen (lower_lines moves rows)
      × (requested (lower_lines moves rows) +ℤ moved_total moves ≡ requested rows)
unfolding lower_lines
lower_lines-total [] rows d h can = (h, +ℤ_zero (requested rows))
lower_lines-total ((n, q) ∷ moves) rows d h can =
    let (open_now, one) = lower_line-total n q rows h can.0 in
    let (kept, rest) = lower_lines-total moves (lower_line n q rows) d.1 open_now (
      All-map2 (CanMove rows) (λ m. m.0 ≢ n) (CanMove (lower_line n q rows)) moves
        (CanMove-lower n q rows) can.1 d.0) in
    (kept, sums _ (moved_total moves) q (requested (lower_line n q rows)) (requested rows) rest one)

new_line-requested :
    (rows : List Line) (moves : List (Name × ℤ))
    → requested (map (new_line rows) moves) ≡ moved_total moves
unfolding new_line
new_line-requested rows [] = refl
new_line-requested rows ((n, q) ∷ moves) = ap (λ s. q +ℤ s) (new_line-requested rows moves)

split_collected_conserves :
    (d : Delivery) (moves : List (Name × ℤ)) {out : Delivery × List Line}
    → All IsOpen d.items
    → Distinct moves
    → split_collected d moves ≡ ok out
    → All IsOpen out.0.items × (requested out.0.items +ℤ requested out.1 ≡ requested d.items)
unfolding split_collected split_moves
split_collected_conserves d moves {out} h distinct e =
    elim (Bool-cases (check_moves d.items moves)) [
      | inl bad ↦ cc (rw bad at e)
      | inr fits ↦
          let can =
            All-map (λ m. over_movable (find_line m.0 d.items) m.1 ≡ false) (CanMove d.items) moves
              (over_movable-CanMove d.items) ((any-false _ moves).0 fits) in
          let (kept, total) = lower_lines-total moves d.items distinct h can in
          let (_, e1) =
            throw_if-eq-ok
              (all (λ (r : Line). eqb_ℤ (r.requested_quantity -ℤ moved_of r.name moves) (pos 0))
                d.items)
              everything (ok (split_moves d moves)) {b = out} (rw fits at e) in
          let same : split_moves d moves ≡ out = cc e1 in
          subst
            (λ o. All IsOpen o.0.items × (requested o.0.items +ℤ requested o.1 ≡ requested d.items))
            same (kept, rw (new_line-requested d.items moves) total)
    ]

-- A split that goes through, of a delivery on whose lines nothing is negative and nothing more
-- than requested was touched, leaves lines of which the same holds, and the quantity requested on
-- them and on the lines of the new delivery is together what was requested before.
pub split_outbound_delivery_conserves :
    (has_role : Bool) (d : Delivery) (lines : List (Name × ℤ)) {out : Delivery × List Line}
    → All IsOpen d.items
    → split_outbound_delivery has_role d lines ≡ ok out
    → All IsOpen out.0.items × (requested out.0.items +ℤ requested out.1 ≡ requested d.items)
unfolding split_outbound_delivery
split_outbound_delivery_conserves has_role d lines {out} h e =
    let (_, e1) =
      throw_if-eq-ok (not has_role) not_permitted
        (throw_if (cannot_split d) not_open
          >> (collect_moves d.items lines [] >>= split_collected d))
        e in
    let (_, e2) =
      throw_if-eq-ok (cannot_split d) not_open
        (collect_moves d.items lines [] >>= split_collected d) e1 in
    let (moves, collected, e3) =
      >>=-eq-ok (collect_moves d.items lines []) (split_collected d) e2 in
    split_collected_conserves d moves h (collect_moves-Distinct d.items lines [] tt collected) e3
