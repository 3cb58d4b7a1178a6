-- ===== src/Tests/CycleCount.antt =====
-- The rules of frappe_wms/services/cycle_count.py, at concrete inputs.
use frappe_ewm.Base.{List, [], refl, true, ◌+◌, ◌∷◌, ◌≡◌}
use frappe_ewm.CycleCount.Rules.{
  bin_check_scopes, covers, create_count, generate, generate_rules, generate_scheduled_counts,
  new_count, scope_recently_covered, scopes_of,
}
use frappe_ewm.CycleCount.Types.{Count, Session, bin_check, posted}

abbrev scheduler : Session
scheduler = record {
  today = 50;
  count_name = λ n. n + 600;
  rules =
      record {
        active = true;
        procedure_type = bin_check;
        warehouse = 1;
        frequency_days = 30;
        abc_indicator = 0;
        storage_type = 3;
      }
      ∷ [];
  products = [];
  stock_rules = [];
  bins =
      record { name = 5; warehouse = 1; storage_type = 3; active = true }
      ∷ record { name = 6; warehouse = 1; storage_type = 3; active = true }
      ∷ [];
  balances = [];
  ledger = [];
  day_of = λ t. t;
}

-- Bin 6 was counted ten days ago.
abbrev counted_before : List Count
counted_before =
    record {
      name = 599;
      warehouse = 1;
      product = 0;
      storage_bin = 6;
      count_date = 40;
      status = posted;
    }
    ∷ []

first_run : (generate_scheduled_counts scheduler counted_before).0 ≡ 601 ∷ []
unfolding generate_scheduled_counts generate_rules generate scopes_of bin_check_scopes
    scope_recently_covered covers create_count new_count
first_run = refl
