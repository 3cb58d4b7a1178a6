-- ===== src/Tests/Removal.antt =====
-- The removal rules of frappe_wms/services/removal_rules.py, at concrete inputs.
use mathlib.Core.List.{Perm}
use frappe_ewm.Base.{
  Has, IsSorted, [], err, false, is_some, lex, none, pos, refl, some, sorted, true, ◌+ℤ◌, ◌-ℤ◌, ◌↔◌,
  ◌∷◌, ◌≡◌,
}
use frappe_ewm.Removal.{
  Rule, expiry_less, fifo_less, insert_by, registered, sorted_by, strategy_fefo, strategy_fifo,
  strategy_lifo, type_error,
}
use frappe_ewm.Removal.Order.{strategy_fefo-IsSorted, strategy_fifo-refuses}
use frappe_ewm.Stock.Types.{Balance}
use frappe_ewm.Tests.Data.{no_owner, receiving_bin}

abbrev old : Balance
old = record {
  name = 11;
  place = receiving_bin;
  owner = no_owner;
  stock_uom = 3;
  quantity = pos 4000000;
  allocated_quantity = pos 0;
  available_quantity = pos 4000000;
  first_receipt_date = some 100;
  shelf_life_expiry_date = none;
  last_movement_date = none;
  version = 0;
}

abbrev young : Balance
young = record old { name = 12; first_receipt_date = some 200; shelf_life_expiry_date = some 300 }

abbrev rule : Rule
rule = record {
  strategy = registered 1;
  sort_fields = record { field = 1; descending = true } ∷ [];
  fixed_bin = 0;
  custom_strategy = 0;
  item = 0;
  item_group = 0;
  stock_type = 4;
}

strategy_fefo-IsSorted_example :
    IsSorted (lex expiry_less fifo_less) (young ∷ old ∷ [])
    × Perm (young ∷ old ∷ []) (old ∷ young ∷ [])
unfolding sorted strategy_fifo strategy_lifo strategy_fefo sorted_by insert_by ◌+ℤ◌ ◌-ℤ◌
strategy_fefo-IsSorted_example = strategy_fefo-IsSorted (old ∷ young ∷ []) refl

strategy_fifo-refuses_example :
    (strategy_fifo (old ∷ record young { first_receipt_date = none } ∷ []) ≡ err type_error) ↔ (
      Has
        (λ (b : Balance). is_some b.first_receipt_date ≡ true)
        (old ∷ record young { first_receipt_date = none } ∷ [])
      × Has
          (λ (b : Balance). is_some b.first_receipt_date ≡ false)
          (old ∷ record young { first_receipt_date = none } ∷ []))
strategy_fifo-refuses_example =
    strategy_fifo-refuses (old ∷ record young { first_receipt_date = none } ∷ [])
