-- ===== src/InventoryCount/Post.antt =====
-- How a count of frappe_wms/services/inventory_count.py is posted, recounted and approved.
use frappe_ewm.Base.{
  Bool, List, Name, Result, [], all, any, eqb_ℤ, false, if◌then◌else◌, map, none, not, ok, pos,
  some, throw_if, true, ℕ, ◌&&◌, ◌++◌, ◌+◌, ◌==◌, ◌>>=◌, ◌>>◌, ◌∷◌,
}
use frappe_ewm.InventoryCount.Snapshot.{is_open_row, release_blocked_bins, require_role}
use frappe_ewm.InventoryCount.Types.{
  Count, CountError, CountStatus, Row, RowStatus, Session, ToleranceGroup, World, counted, counting,
  not_awaiting_approval, not_counted, pending_approval, pending_recount, posted, row_counted,
  row_open, row_posted, under_review,
}
use frappe_ewm.InventoryCount.Variance.{
  matching_tolerance_group, post_row, variance_of, within_tolerance,
}
use frappe_ewm.Stock.Types.{Db}

-- What `post_count` decides about a line.
pub data Verdict : Type 0 where
  leave settle post_now : Verdict
  review : ToleranceGroup → RowStatus → Verdict

unfoldable pub judge_group : ToleranceGroup → Row → Verdict
judge_group g r =
    if within_tolerance g (variance_of r) r.book_quantity
    then post_now
    else if g.requires_recount && (r.recount_count == 0)
    then review g pending_recount
    else if g.requires_approval
    then review g pending_approval
    else post_now

abbrev pub is_settled : RowStatus → Bool
is_settled row_posted = true
is_settled pending_approval = true
is_settled _ = false

unfoldable pub judge : Session → Name → Row → Verdict
judge s warehouse r =
    if is_settled r.status
    then leave
    else if eqb_ℤ (variance_of r) (pos 0)
    then settle
    else elim (matching_tolerance_group s warehouse r.product) [
      | none ↦ post_now
      | some g ↦ judge_group g r
    ]

-- The group of a line that is out of tolerance, which is posted all the same when the group asks
-- for nothing.
unfoldable pub with_group : Session → Name → Row → Row
with_group s warehouse r = elim (matching_tolerance_group s warehouse r.product) [
  | none ↦ r
  | some g ↦
      if within_tolerance g (variance_of r) r.book_quantity
      then r
      else record r { tolerance_group = g.name }
]

-- One round of the loop: the line, the names posted now, and the stock.
unfoldable pub post_line :
    Session → Count → Row → ℕ → Db → Verdict → Result CountError (Row × List Name × Db)
post_line s doc r i db leave = ok (r, [], db)
post_line s doc r i db settle = ok (record r { status = row_posted }, [], db)
post_line s doc r i db (review g st) =
    ok (record r { tolerance_group = g.name; status = st }, [], db)
post_line s doc r i db post_now = do
  (r', db') ← post_row s doc (with_group s doc.warehouse r) i db
  ok (r', r.name ∷ [], db')

unfoldable pub post_lines :
    Session → Count → ℕ → List Row → Db → Result CountError (List Row × List Name × Db)
post_lines s doc i [] db = ok ([], [], db)
post_lines s doc i (r ∷ rs) db = do
  (r', names, db1) ← post_line s doc r i db (judge s doc.warehouse r)
  (rs', more, db2) ← post_lines s doc (i + 1) rs db1
  ok (r' ∷ rs', names ++ more, db2)

abbrev pub is_posted_row : Row → Bool
is_posted_row r = elim r.status [
  | row_open ↦ false
  | row_counted ↦ false
  | row_posted ↦ true
  | pending_recount ↦ false
  | pending_approval ↦ false
]

abbrev pub is_in_review : Row → Bool
is_in_review r = elim r.status [
  | row_open ↦ false
  | row_counted ↦ false
  | row_posted ↦ false
  | pending_recount ↦ true
  | pending_approval ↦ true
]

-- `_recompute_pic_status`
unfoldable pub recompute_pic_status : CountStatus → List Row → CountStatus
recompute_pic_status old rows =
    if all is_posted_row rows then posted else if any is_in_review rows then under_review else old

-- `_mirror_posted_rows`
unfoldable pub mirror_posted_rows : List Name → World → World
mirror_posted_rows [] w = w
mirror_posted_rows (n ∷ ns) w = record w { dispatched = w.dispatched ++ (n ∷ ns) ∷ [] }

abbrev pub is_posted : CountStatus → Bool
is_posted posted = true
is_posted _ = false

-- The end of `post_count` and `approve_variance`.
unfoldable pub finish : Session → Count → World → Count × World
finish s doc w =
    let status = recompute_pic_status doc.status doc.items in
    if is_posted status
    then (
      record doc { status = status; posted_by = s.user; posted_at = some s.now },
      release_blocked_bins doc w,
    )
    else (record doc { status = status }, w)

abbrev pub is_counted : CountStatus → Bool
is_counted counted = true
is_counted _ = false

-- `post_count`
unfoldable pub post_count : Session → Count → World → Result CountError (Count × World)
post_count s doc w = do
  require_role s
  throw_if (not (is_counted doc.status)) not_counted
  (rows, names, db) ← post_lines s doc 1 doc.items w.stock
  ok (finish s (record doc { items = rows }) (mirror_posted_rows names (record w { stock = db })))

unfoldable pub recount_row : Row → Row
recount_row r = elim r.status [
  | row_open ↦ r
  | row_counted ↦ r
  | row_posted ↦ r
  | pending_approval ↦ r
  | pending_recount ↦ record r {
    recount_count = r.recount_count + 1;
    counted_quantity = none;
    variance = none;
    status = row_open;
  }
]

-- `request_recount`
unfoldable pub request_recount : Session → Count → World → Result CountError (Count × World)
request_recount s doc w = do
  require_role s
  let rows = map recount_row doc.items
  ok (
    record doc { items = rows; status = if any is_open_row rows then counting else doc.status },
    w,
  )

abbrev is_awaiting : RowStatus → Bool
is_awaiting pending_approval = true
is_awaiting _ = false

-- One round of the loop of `approve_variance`.
unfoldable pub approve_line :
    Session → Count → Row → ℕ → Db → Bool → Result CountError (Row × List Name × Db)
approve_line s doc r i db false = ok (r, [], db)
approve_line s doc r i db true = do (r', db') ← post_row s doc r i db; ok (r', r.name ∷ [], db')

unfoldable pub approve_lines :
    Session → Count → ℕ → List Row → Db → Result CountError (List Row × List Name × Db)
approve_lines s doc i [] db = ok ([], [], db)
approve_lines s doc i (r ∷ rs) db = do
  (r', names, db1) ← approve_line s doc r i db (is_awaiting r.status)
  (rs', more, db2) ← approve_lines s doc (i + 1) rs db1
  ok (r' ∷ rs', names ++ more, db2)

abbrev is_under_review : CountStatus → Bool
is_under_review under_review = true
is_under_review _ = false

-- `approve_variance`
unfoldable pub approve_variance : Session → Count → World → Result CountError (Count × World)
approve_variance s doc w = do
  require_role s
  throw_if (not (is_under_review doc.status)) not_awaiting_approval
  (rows, names, db) ← approve_lines s doc 1 doc.items w.stock
  ok (
      finish s (record doc { items = rows; approved_by = s.user })
        (mirror_posted_rows names (record w { stock = db })))
