-- ===== src/Tests/DeliverySplit.antt =====
-- The split of frappe_wms/services/delivery_split.py, at concrete inputs.
use frappe_ewm.Base.{All, List, Name, [], arith, false, pos, refl, true, ℤ, ◌+ℤ◌, ◌-ℤ◌, ◌∷◌, ◌≡◌}
use frappe_ewm.DeliverySplit.{
  Delivery, Line, add_move, collect_moves, find_line, in_work, lower_line, lower_lines,
  movable_quantity, moved_of, new_line, over_movable, partially_allocated,
  refresh_allocation_status, split_collected, split_moves, split_outbound_delivery, touched,
}
use frappe_ewm.DeliverySplit.Conserve.{split_outbound_delivery_conserves}
use frappe_ewm.DeliverySplit.Moves.{IsOpen, requested}
use frappe_ewm.Tests.Data.{from_ok}

abbrev line : Line
line = record {
  name = 21;
  item = 2;
  requested_quantity = pos 9000000;
  allocated_quantity = pos 3000000;
  picked_quantity = pos 1000000;
  packed_quantity = pos 0;
  issued_quantity = pos 0;
}

abbrev delivery : Delivery
delivery = record {
  docstatus = 1;
  closed_short = false;
  status = in_work 1;
  items = line ∷ record line { name = 22 } ∷ [];
  allocation_status = partially_allocated;
}

abbrev wanted : List (Name × ℤ)
wanted = (21, pos 2000000) ∷ (22, pos 1000000) ∷ (21, pos 4000000) ∷ []

abbrev outcome : Delivery × List Line
unfolding split_outbound_delivery split_collected split_moves collect_moves add_move find_line
    over_movable movable_quantity touched moved_of lower_lines lower_line new_line
    refresh_allocation_status ◌+ℤ◌ ◌-ℤ◌
outcome = from_ok (delivery, []) (split_outbound_delivery true delivery wanted)

split_outbound_delivery_conserves_example :
    All IsOpen outcome.0.items
    × (requested outcome.0.items +ℤ requested outcome.1 ≡ requested delivery.items)
unfolding split_outbound_delivery split_collected split_moves collect_moves add_move find_line
    over_movable movable_quantity touched moved_of lower_lines lower_line new_line
    refresh_allocation_status ◌+ℤ◌ ◌-ℤ◌
split_outbound_delivery_conserves_example =
    split_outbound_delivery_conserves true delivery wanted
      ((omega arith, omega arith), ((omega arith, omega arith), tt)) refl
