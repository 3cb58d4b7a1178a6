-- ===== src/Tests/InventoryCount.antt =====
-- A count of frappe_wms/services/inventory_count.py, at concrete inputs.
use frappe_ewm.Base.{List, [], false, map, negsuc, none, pos, refl, some, true, ◌+◌, ◌∷◌, ◌≡◌}
use frappe_ewm.InventoryCount.Post.{
  finish, judge, judge_group, mirror_posted_rows, post_count, post_line, post_lines,
  recompute_pic_status, recount_row, request_recount,
}
use frappe_ewm.InventoryCount.Snapshot.{
  distinct_names, in_scope, is_busy, is_removal_blocked, newly_blocked, set_blocked, snapshot_count,
  snapshot_row, snapshot_rows, touched_bins,
}
use frappe_ewm.InventoryCount.Types.{
  Count, Row, Session, ToleranceGroup, World, cancelled, counted, counting, draft, row_counted,
}
use frappe_ewm.InventoryCount.Variance.{matches_group, matching_tolerance_group, within_tolerance}
use frappe_ewm.Stock.Types.{Balance}
use frappe_ewm.Tests.Data.{env, from_ok, no_stock, receiving_bin}

abbrev counter : Session
counter = record {
  env = env;
  user = 5;
  now = 100;
  has_role = true;
  open_tasks = [];
  tolerance_groups = strict ∷ [];
  item_group = λ i. 0;
  stock_uom = λ p. 0;
  recount_different_user = λ w. false;
  row_name = λ n. n + 200;
}
  where
    strict : ToleranceGroup
    strict = record {
      name = 9;
      warehouse = 0;
      item_group = 0;
      tolerance_percentage = 1;
      tolerance_quantity = 0;
      requires_recount = true;
      requires_approval = false;
    }

abbrev plain_count : Count
plain_count = record {
  name = 300;
  warehouse = 1;
  storage_bin = 0;
  storage_type = 0;
  product = 2;
  status = draft;
  items = [];
  blocked_bins = [];
  counted_by = 0;
  posted_by = 0;
  posted_at = none;
  approved_by = 0;
}

abbrev full_bin : Balance
full_bin = record {
  name = 77;
  place = receiving_bin;
  owner = record {
    stock_owner = 0;
    entitled_party = 0;
    country_of_origin = 0;
    special_stock_type = 0;
    special_stock_ref = 0;
    consolidation_group = 0;
  };
  stock_uom = 3;
  quantity = pos 4000000;
  allocated_quantity = pos 0;
  available_quantity = pos 4000000;
  first_receipt_date = none;
  shelf_life_expiry_date = none;
  last_movement_date = none;
  version = 1;
}

abbrev hall : World
hall = record {
  stock = record no_stock { balances = full_bin ∷ [] };
  bins =
      record {
        name = receiving_bin.storage_bin;
        warehouse = 1;
        storage_type = 3;
        removal_blocked = false;
      }
      ∷ record { name = 88; warehouse = 1; storage_type = 3; removal_blocked = true }
      ∷ [];
  dispatched = [];
}

abbrev none_yet : Count × World
none_yet = (plain_count, hall)

abbrev started : Count × World
unfolding snapshot_count in_scope touched_bins distinct_names newly_blocked is_removal_blocked
    set_blocked snapshot_rows snapshot_row is_busy
started = from_ok none_yet (snapshot_count counter plain_count hall)

started_blocks : map (λ b. b.removal_blocked) started.1.bins ≡ true ∷ true ∷ []
unfolding snapshot_count in_scope touched_bins distinct_names newly_blocked is_removal_blocked
    set_blocked snapshot_rows snapshot_row is_busy
started_blocks = refl

-- One line is as the book has it, the other is far out of tolerance.
abbrev counted_rows : List Row
counted_rows =
    record (snapshot_row counter 0 full_bin) { variance = some (pos 0); status = row_counted }
    ∷ record (snapshot_row counter 1 full_bin) {
      variance = some (negsuc 2999999);
      status = row_counted;
    }
    ∷ []

abbrev counted_up : Count
counted_up = record plain_count { items = counted_rows; status = counted }

abbrev after_posting : Count × World
unfolding post_count post_lines post_line judge judge_group matching_tolerance_group matches_group
    within_tolerance finish recompute_pic_status mirror_posted_rows snapshot_row
after_posting = from_ok none_yet (post_count counter counted_up hall)

-- A count that was called off while a line waited for a recount is opened again by asking for it, and
-- its bins stay free.
called_off_reopens :
    from_ok none_yet (request_recount counter (record after_posting.0 { status = cancelled }) hall)
    ≡ (
      record after_posting.0 { items = map recount_row after_posting.0.items; status = counting },
      hall,
    )
unfolding post_count post_lines post_line judge judge_group matching_tolerance_group matches_group
    within_tolerance finish recompute_pic_status mirror_posted_rows snapshot_row request_recount
    recount_row
called_off_reopens = refl
