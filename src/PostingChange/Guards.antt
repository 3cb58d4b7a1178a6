-- ===== src/PostingChange/Guards.antt =====
-- What a change of frappe_wms/services/posting_change.py that goes through has passed.
use frappe_ewm.Base.{
  >>-eq-ok, >>=-eq-ok, Bool, Bool-cases, Name, Option, [], ap, arith, err, false, if◌then◌else◌,
  inl, inr, int_laws, is_set, none, not, ok, pos, refl, some, subst, sym, throw_if-eq-ok, true, ℤ,
  ◌&&◌, ◌++◌, ◌+ℤ◌, ◌==◌, ◌>>◌, ◌||◌, ◌∙◌, ◌∷◌, ◌≡◌, ◌≤ℤ◌,
}
use frappe_ewm.PostingChange.Change.{
  cancel_entry, cancel_posting_change, changed_row, check_mixing, half_special_stock, has_free,
  is_draft_change, is_posted_change, mark_posted, other_batch, other_product, post_posting_change,
  validate_change,
}
use frappe_ewm.PostingChange.Moved.{
  is_new_posting, move_change-moves, move_change-moves_back, row_after, row_before,
}
use frappe_ewm.PostingChange.Sides.{after_side, before_side, identity_eq, move_change, psc, psc_rev}
use frappe_ewm.PostingChange.Types.{
  Change, ChangeStatus, Session, World, already_posted, cancelled_change, draft_change,
  half_special, not_free, not_managed, not_permitted, not_posted, nothing_changes, posted_change,
  serial_fixed, wrong_batch,
}
use frappe_ewm.Stock.Moves.{moves_by}
use frappe_ewm.Stock.Rows.{quantity_of}
use frappe_ewm.Stock.Types.{Balance, Db}

-- The conditions on a change that `validate_change` lets through.
abbrev pub IsValidChange : Session → Change → Db → Type 0
IsValidChange s doc db =
    (identity_eq (before_side doc) (after_side doc) ≡ false)
    × ((other_product (before_side doc) (after_side doc)
            || other_batch (before_side doc) (after_side doc))
          && is_set doc.serial_no
        ≡ false)
    × (half_special_stock (after_side doc) ≡ false)
    × (row : Balance) × (changed_row s doc db ≡ some row)
    × (doc.quantity ≤ℤ row.available_quantity +ℤ pos 1)

has_free-row :
    (q : ℤ) (o : Option Balance)
    → not (has_free q o) ≡ false
    → (row : Balance) × (o ≡ some row) × (q ≤ℤ row.available_quantity +ℤ pos 1)
has_free-row q none h = cc h
has_free-row q (some row) h = (row, refl, ground arith)

validate_change-IsValidChange :
    (s : Session) (doc : Change) (db : Db)
    → validate_change s doc db ≡ ok tt
    → IsValidChange s doc db
unfolding validate_change
validate_change-IsValidChange s doc db goes =
    let a = before_side doc in
    let b = after_side doc in
    let (changes, g1) = throw_if-eq-ok (identity_eq a b) nothing_changes _ {b = tt} goes in
    let (serial, g2) =
      throw_if-eq-ok ((other_product a b || other_batch a b) && is_set doc.serial_no) serial_fixed _
        {b = tt} g1 in
    let (_, g3) =
      throw_if-eq-ok (other_product a b && not (s.is_warehouse_managed b.product)) not_managed _
        {b = tt} g2 in
    let (_, g4) =
      throw_if-eq-ok (is_set b.batch_no && not (s.batch_item b.batch_no == b.product)) wrong_batch _
        {b = tt} g3 in
    let (special, g5) = throw_if-eq-ok (half_special_stock b) half_special _ {b = tt} g4 in
    let (free, _) =
      throw_if-eq-ok (not (has_free doc.quantity (changed_row s doc db))) not_free (ok tt) {b = tt}
        g5 in
    let (row, there, enough) = has_free-row doc.quantity (changed_row s doc db) free in
    (changes, serial, special, row, there, enough)

pub post_posting_change-IsValidChange :
    (s : Session) (checks : Bool) (doc : Change) (w : World) {out : Change × World}
    → is_new_posting doc psc w.stock ≡ true
    → post_posting_change s checks doc w ≡ ok out
    → (doc.status ≡ draft_change)
      × (out.0 ≡ mark_posted s doc)
      × IsValidChange s doc w.stock
      × ((n : Name)
          → quantity_of n out.1.stock.balances
            ≡ quantity_of n w.stock.balances
              +ℤ moves_by doc.quantity (row_before s doc) (row_after s doc) n)
unfolding post_posting_change
post_posting_change-IsValidChange s checks doc w {out} fresh goes =
    let (_, g1) = throw_if-eq-ok (not s.has_role) not_permitted _ {b = out} goes in
    let (is_new, g2) =
      throw_if-eq-ok (not (is_draft_change doc.status)) already_posted _ {b = out} g1 in
    let (valid, g3) = >>-eq-ok (validate_change s doc w.stock) _ {b = out} g2 in
    let (db, moves, g4) =
      >>=-eq-ok (move_change s doc true psc w.stock)
        (λ x.
          (if checks then check_mixing s doc x else ok tt)
          >> ok (
            mark_posted s doc,
            record w { stock = x; dispatched = w.dispatched ++ doc.name ∷ [] },
          ))
        {b = out} g3 in
    let (_, g5) = >>-eq-ok (if checks then check_mixing s doc db else ok tt) _ {b = out} g4 in
    let same : (
      mark_posted s doc,
      record w { stock = db; dispatched = w.dispatched ++ doc.name ∷ [] },
    )
        ≡ out =
      cc g5 in
    (
      draft_only doc.status is_new,
      ap (λ o. o.0) (sym same),
      validate_change-IsValidChange s doc w.stock valid,
      λ n.
          subst
            (λ x.
              quantity_of n x
              ≡ quantity_of n w.stock.balances
                +ℤ moves_by doc.quantity (row_before s doc) (row_after s doc) n)
            (ap (λ o. o.1.stock.balances) same)
            (move_change-moves s doc w.stock {out = db} n fresh moves),
    )
  where
    draft_only : (st : ChangeStatus) → not (is_draft_change st) ≡ false → st ≡ draft_change
    draft_only draft_change h = refl
    draft_only posted_change h = cc h
    draft_only cancelled_change h = cc h

post_refused :
    (s : Session) (checks : Bool) (doc : Change) (w : World)
    → s.has_role ≡ true
    → is_draft_change doc.status ≡ false
    → post_posting_change s checks doc w ≡ err already_posted
unfolding post_posting_change
post_refused s checks doc w role status = rw (role, status) refl

cancel_refused :
    (s : Session) (doc : Change) (w : World)
    → s.has_role ≡ true
    → is_posted_change doc.status ≡ false
    → cancel_posting_change s doc w ≡ err not_posted
unfolding cancel_posting_change
cancel_refused s doc w role status = rw (role, status) refl

post_posting_change-role :
    (s : Session) (checks : Bool) (doc : Change) (w : World) {out : Change × World}
    → post_posting_change s checks doc w ≡ ok out
    → s.has_role ≡ true
unfolding post_posting_change
post_posting_change-role s checks doc w {out} goes =
    let (role, _) = throw_if-eq-ok (not s.has_role) not_permitted _ {b = out} goes in ground arith

cancel_entry-stock :
    (s : Session) (doc : Change) (w : World) → (cancel_entry s doc w).stock ≡ w.stock
unfolding cancel_entry
cancel_entry-stock s doc w =
    elim (Bool-cases (is_set doc.erpnext_stock_entry && s.is_submitted doc.erpnext_stock_entry)) [
      | inl submitted ↦ rw submitted refl
      | inr other ↦ rw other refl
    ]

back_again : (q : ℤ) (a b n : Name) (x : ℤ) → x +ℤ moves_by q a b n +ℤ moves_by q b a n ≡ x
back_again q a b n x = elim (Bool-cases (a == n)) [
  | inl left ↦ elim (Bool-cases (b == n)) [
    | inl right ↦ rw (left, right) (omega int_laws)
    | inr other ↦ rw (left, other) (omega int_laws)
  ]
  | inr away ↦ elim (Bool-cases (b == n)) [
    | inl right ↦ rw (away, right) (omega int_laws)
    | inr other ↦ rw (away, other) (omega int_laws)
  ]
]

-- Where neither the posting nor its reversal repeats an earlier one, a change that is posted and
-- then cancelled, both without an error, leaves every row with the quantity it had before; the
-- change is then cancelled, and can be neither posted nor cancelled again.
pub post_posting_change-cancel_posting_change :
    (s : Session) (checks : Bool) (doc : Change) (w : World) {out end : Change × World}
    → is_new_posting doc psc w.stock ≡ true
    → is_new_posting doc psc_rev out.1.stock ≡ true
    → post_posting_change s checks doc w ≡ ok out
    → cancel_posting_change s out.0 out.1 ≡ ok end
    → ((n : Name) → quantity_of n end.1.stock.balances ≡ quantity_of n w.stock.balances)
      × (end.0.status ≡ cancelled_change)
      × (post_posting_change s checks end.0 end.1 ≡ err already_posted)
      × (cancel_posting_change s end.0 end.1 ≡ err not_posted)
unfolding cancel_posting_change mark_posted
post_posting_change-cancel_posting_change s checks doc w {out} {end} fresh fresh_back goes ends =
    let role = post_posting_change-role s checks doc w goes in
    let (_, posted, _, rows) = post_posting_change-IsValidChange s checks doc w fresh goes in
    let (_, g1) = throw_if-eq-ok (not s.has_role) not_permitted _ {b = end} ends in
    let (_, g2) = throw_if-eq-ok (not (is_posted_change out.0.status)) not_posted _ {b = end} g1 in
    let (db, back, g3) =
      >>=-eq-ok (move_change s out.0 false psc_rev out.1.stock)
        (λ x. ok (
          record out.0 { status = cancelled_change },
          cancel_entry s out.0 (record out.1 { stock = x }),
        ))
        {b = end} g2 in
    let same : (
      record out.0 { status = cancelled_change },
      cancel_entry s out.0 (record out.1 { stock = db }),
    )
        ≡ end =
      cc g3 in
    let stock : db ≡ end.1.stock =
      sym (cancel_entry-stock s out.0 (record out.1 { stock = db })) ∙ ap (λ o. o.1.stock) same in
    let status : end.0.status ≡ cancelled_change = ap (λ o. o.0.status) (sym same) in
    (
      λ n.
          let rows_back =
            move_change-moves_back s out.0 out.1.stock {out = db} n (rw posted fresh_back) back in
          let again : moves_by out.0.quantity (row_after s out.0) (row_before s out.0) n
              ≡ moves_by doc.quantity (row_after s doc) (row_before s doc) n =
            rw posted refl in
          cc (
            rows_back,
            again,
            rows n,
            ap (λ d. quantity_of n d.balances) stock,
            back_again doc.quantity (row_before s doc) (row_after s doc) n
                (quantity_of n w.stock.balances),
          ),
      status,
      post_refused s checks end.0 end.1 role (ap (λ st. is_draft_change st) status),
      cancel_refused s end.0 end.1 role (ap (λ st. is_posted_change st) status),
    )
