-- ===== src/Tests/Relocate.antt =====
-- The relocation of handling units in frappe_wms/services/stock.py, at concrete inputs.
use frappe_ewm.Base.{none, pos, some}
use frappe_ewm.Stock.Types.{Balance}
use frappe_ewm.Tests.Data.{no_owner, receiving_bin}

abbrev on_pallet : Balance
on_pallet = record {
  name = 71;
  place = record receiving_bin { handling_unit = 61 };
  owner = no_owner;
  stock_uom = 3;
  quantity = pos 4000000;
  allocated_quantity = pos 1000000;
  available_quantity = pos 3000000;
  first_receipt_date = some 100;
  shelf_life_expiry_date = none;
  last_movement_date = none;
  version = 0;
}
