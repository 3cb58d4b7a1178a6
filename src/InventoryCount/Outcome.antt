-- ===== src/InventoryCount/Outcome.antt =====
-- How posting a count of frappe_wms/services/inventory_count.py ends.
use frappe_ewm.Base.{All, Bool, Has, List, false, true, ◌||◌, ◌≡◌, ◌⊎◌}
use frappe_ewm.InventoryCount.Post.{
  Verdict, is_in_review, is_posted_row, leave, post_now, review, settle,
}
use frappe_ewm.InventoryCount.Snapshot.{set_blocked}
use frappe_ewm.InventoryCount.Types.{Bin, Count, Row, World, posted, under_review}

abbrev is_judged : Row → Bool
is_judged r = is_posted_row r || is_in_review r

-- A verdict that leaves the line posted or in review.
abbrev Settles : Verdict → Row → Type 0
Settles leave r = is_judged r ≡ true
Settles settle r = Unit
Settles post_now r = Unit
Settles (review g st) r = is_judged (record r { status = st }) ≡ true

-- How a count stands after a posting, whose bins were `bins` before.
abbrev pub Concluded : Count → List Bin → Count × World → Type 0
Concluded doc bins (doc', w') =
    ((doc'.status ≡ posted)
      × All (λ r. is_posted_row r ≡ true) doc'.items
      × (w'.bins ≡ set_blocked false doc.blocked_bins bins))
    ⊎ ((doc'.status ≡ under_review)
        × Has (λ r. is_in_review r ≡ true) doc'.items
        × (w'.bins ≡ bins))
