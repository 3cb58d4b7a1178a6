-- ===== src/Allocation/Delivery.antt =====
-- `allocate_delivery` of frappe_wms/services/allocation.py as a whole.
use frappe_ewm.Base.{
  >>=-eq-ok, All, All-map, Has, Has-map, List, Result, [], all, all-All, all-false, any, any-false,
  arith, false, int_laws, leb_ℤ, ltb_ℤ, not, ok, pos, refl, subst, throw_if-eq-ok, true, ℤ, ◌+ℤ◌,
  ◌<ℤ◌, ◌>>=◌, ◌||◌, ◌↔◌, ◌∷◌, ◌≡◌, ◌≤ℤ◌,
}
use frappe_ewm.Allocation.Allocate.{
  allocate_delivery, allocate_line, allocate_lines, allocation_status_of, line_after,
}
use frappe_ewm.Allocation.Candidates.{candidate_balances}
use frappe_ewm.Allocation.Reserves.{IsCovered, LineReserves, line_after-Reserves, reserved_total}
use frappe_ewm.Allocation.Types.{
  AllocationError, Db, Delivery, Line, Master, fully_allocated, not_allocated, not_permitted,
  not_submitted,
}

-- What the lines of a delivery have reserved.
abbrev pub lines_total : List Line → ℤ
lines_total [] = pos 0
lines_total (l ∷ ls) = l.allocated_quantity +ℤ lines_total ls

-- A line has not reserved more than it asks for.
abbrev pub IsWithin : Line → Type 0
IsWithin l = l.allocated_quantity ≤ℤ l.requested_quantity

-- What allocating some lines leaves: covered rows, reservations that add up, lines within bounds.
abbrev pub LinesReserve : List Line → Db → List Line × Db → Type 0
LinesReserve rows db (rows', db') =
    All IsCovered db'.balances
    × (reserved_total db'.allocations +ℤ lines_total rows
        ≡ reserved_total db.allocations +ℤ lines_total rows')
    × (All IsWithin rows → All IsWithin rows')

allocate_line-Reserves :
    (m : Master) (d : Delivery) (row : Line) (db : Db) {out : Line × Db}
    → All IsCovered db.balances
    → allocate_line m d row db ≡ ok out
    → LineReserves row db out × (out.0.requested_quantity ≡ row.requested_quantity)
unfolding allocate_line
allocate_line-Reserves m d row db {out} h e =
    let (candidates, found, last) =
      >>=-eq-ok (candidate_balances m d row db.balances)
        (λ candidates. ok (line_after m d row db candidates)) {b = out} e in
    let same : line_after m d row db candidates ≡ out = cc last in
    subst (λ o. LineReserves row db o × (o.0.requested_quantity ≡ row.requested_quantity)) same
      (line_after-Reserves m d row db candidates h, unfold line_after in refl)

chain_sums :
    (now mid before a b a' b' : ℤ)
    → now +ℤ b ≡ mid +ℤ b'
    → mid +ℤ a ≡ before +ℤ a'
    → now +ℤ (a +ℤ b) ≡ before +ℤ (a' +ℤ b')
chain_sums now mid before a b a' b' h k = grind int_laws

allocate_lines-Reserve :
    (m : Master) (d : Delivery) (rows : List Line) (db : Db) {out : List Line × Db}
    → All IsCovered db.balances
    → allocate_lines m d rows db ≡ ok out
    → LinesReserve rows db out
unfolding allocate_lines
allocate_lines-Reserve m d [] db {out} h e =
    let same : ([], db) ≡ out = cc e in subst (λ o. LinesReserve [] db o) same (h, refl, λ p. p)
allocate_lines-Reserve m d (row ∷ rows) db {out} h e =
    let (o1, one, rest) =
      >>=-eq-ok (allocate_line m d row db)
        (λ o. allocate_lines m d rows o.1 >>= λ p. ok (o.0 ∷ p.0, p.1)) {b = out} e in
    let (o2, all_done, last) =
      >>=-eq-ok (allocate_lines m d rows o1.1) (λ p. ok (o1.0 ∷ p.0, p.1)) {b = out} rest in
    let same : (o1.0 ∷ o2.0, o2.1) ≡ out = cc last in
    let (first, asked) = allocate_line-Reserves m d row db h one in
    let others = allocate_lines-Reserve m d rows o1.1 first.0 all_done in
    subst (λ o. LinesReserve (row ∷ rows) db o) same
      (
        others.0,
        chain_sums (reserved_total o2.1.allocations) (reserved_total o1.1.allocations)
            (reserved_total db.allocations) row.allocated_quantity (lines_total rows)
            o1.0.allocated_quantity (lines_total o2.0) others.1 first.1,
        λ p. (rw asked (first.3 p.0), others.2 p.1),
      )

-- `doc.db_set("allocation_status", status)`
finish_delivery : Delivery → List Line × Db → Result AllocationError (Delivery × Db)
finish_delivery d o =
    ok (record d { items = o.0; allocation_status = allocation_status_of o.0 }, o.1)

allocate_delivery-steps :
    (m : Master) (d : Delivery) (db : Db) {out : Delivery × Db}
    → allocate_delivery m d db ≡ ok out
    → (o : List Line × Db) × (allocate_lines m d d.items db ≡ ok o)
      × (out ≡ (record d { items = o.0; allocation_status = allocation_status_of o.0 }, o.1))
unfolding allocate_delivery finish_delivery
allocate_delivery-steps m d db {out} e =
    let (_, e0) =
      throw_if-eq-ok (not m.has_role || not (m.may_write d.name)) not_permitted _ {b = out} e in
    let (submitted, e1) =
      throw_if-eq-ok (not d.submitted) not_submitted
        (allocate_lines m d d.items db >>= finish_delivery d) {b = out} e0 in
    let (o, lines, last) =
      >>=-eq-ok (allocate_lines m d d.items db) (finish_delivery d) {b = out} e1 in
    (o, lines, cc last)

status_full :
    (items : List Line)
    → (allocation_status_of items ≡ fully_allocated)
      ↔ (all (λ (l : Line). leb_ℤ l.requested_quantity l.allocated_quantity) items ≡ true)
unfolding allocation_status_of
status_full items = ground arith

status_none :
    (items : List Line)
    → (allocation_status_of items ≡ not_allocated) ↔ (
        (all (λ (l : Line). leb_ℤ l.requested_quantity l.allocated_quantity) items ≡ false)
        × (any (λ (l : Line). ltb_ℤ (pos 0) l.allocated_quantity) items ≡ false))
unfolding allocation_status_of
status_none items = ground arith

-- Allocating a delivery keeps every row of stock covered by what it holds; what its lines have
-- reserved grows by exactly what the new allocations reserve; and no line reserves more than it
-- asks for, if none did before.
pub allocate_delivery-reserves :
    (m : Master) (d : Delivery) (db : Db) {out : Delivery × Db}
    → All IsCovered db.balances
    → All IsWithin d.items
    → allocate_delivery m d db ≡ ok out
    → All IsCovered out.1.balances
      × (reserved_total out.1.allocations +ℤ lines_total d.items
          ≡ reserved_total db.allocations +ℤ lines_total out.0.items)
      × All IsWithin out.0.items
allocate_delivery-reserves m d db {out} h within e =
    let (o, lines, same) = allocate_delivery-steps m d db e in
    let (covered, total, kept) = allocate_lines-Reserve m d d.items db h lines in
    rw same (covered, total, kept within)

-- The status that a delivery gets says "Fully Allocated" exactly when every line has all it asks
-- for, and "Not Allocated" exactly when some line lacks stock and none has any.
allocate_delivery-status :
    (m : Master) (d : Delivery) (db : Db) {out : Delivery × Db}
    → allocate_delivery m d db ≡ ok out
    → ((out.0.allocation_status ≡ fully_allocated)
        ↔ All (λ (l : Line). l.requested_quantity ≤ℤ l.allocated_quantity) out.0.items)
      × ((out.0.allocation_status ≡ not_allocated) ↔ (
          Has (λ (l : Line). l.allocated_quantity <ℤ l.requested_quantity) out.0.items
          × All (λ (l : Line). l.allocated_quantity ≤ℤ pos 0) out.0.items))
allocate_delivery-status m d db {out} e =
    let (o, lines, same) = allocate_delivery-steps m d db e in
    let is_full = λ (l : Line). leb_ℤ l.requested_quantity l.allocated_quantity in
    let some_stock = λ (l : Line). ltb_ℤ (pos 0) l.allocated_quantity in
    let (all_full, full_all) = all-All is_full o.0 in
    let (short, short_all) = all-false is_full o.0 in
    let (none_held, held_none) = any-false some_stock o.0 in
    rw same (
      (
        λ h. All-map _ _ o.0 (λ l p. ground arith) (all_full ((status_full o.0).0 h)),
        λ h. (status_full o.0).1 (full_all (All-map _ _ o.0 (λ l p. ground arith) h)),
      ),
      (
        λ h.
            let (lacks, holds_none) = (status_none o.0).0 h in
            (
              Has-map _ _ o.0 (λ l p. ground arith) (short lacks),
              All-map _ _ o.0 (λ l p. ground arith) (none_held holds_none),
            ),
        λ h. (status_none o.0).1 (
          short_all (Has-map _ _ o.0 (λ l p. ground arith) h.0),
          held_none (All-map _ _ o.0 (λ l p. ground arith) h.1),
        ),
      ),
    )
