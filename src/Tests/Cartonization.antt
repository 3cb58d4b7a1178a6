-- ===== src/Tests/Cartonization.antt =====
-- A plan of frappe_wms/services/cartonization.py, at concrete inputs.
use frappe_ewm.Base.{
  All, List, Name, [], false, if◌then◌else◌, ok, refl, sorted, true, ◌+◌, ◌==◌, ◌∷◌, ◌≡◌,
}
use frappe_ewm.Cartonization.Plan.{
  Line, add_row, fit, fit_by, line_of, lines_of, open_carton, open_first, pack_line, pack_lines,
  plan_cartons, planned_hus_of, planned_rows, put_first, put_in, put_new, put_some, type_fit,
  usable_types, whole_types,
}
use frappe_ewm.Cartonization.Rooms.{IsWithin}
use frappe_ewm.Cartonization.Total.{ordered, pack_lines-packs, packed}
use frappe_ewm.Cartonization.Types.{Carton, Delivery, HuType, Session, other_status}
use frappe_ewm.Cartonization.Within.{plan_cartons-IsWithin}
use frappe_ewm.Tests.Data.{from_ok}

abbrev small_box : HuType
small_box = record { name = 1; maximum_weight = 2000000; maximum_volume = 0 }

abbrev big_box : HuType
big_box = record { name = 2; maximum_weight = 5000000; maximum_volume = 0 }

-- Six units, each of weight 1, and two, each of weight 2.
abbrev light_line : Line
light_line = record { item = 10; quantity = 6000000; weight = 1; volume = 0 }

abbrev heavy_line : Line
heavy_line = record { item = 11; quantity = 2000000; weight = 2; volume = 0 }

pack_lines-packs_example :
    (cs' : List Carton) × (pack_lines (small_box ∷ big_box ∷ []) (light_line ∷ heavy_line ∷ []) []
      ≡ ok cs')
    × ((x : Name) → packed x cs' ≡ packed x [] + ordered x (light_line ∷ heavy_line ∷ []))
unfolding usable_types type_fit fit fit_by
pack_lines-packs_example =
    pack_lines-packs (small_box ∷ big_box ∷ []) (light_line ∷ heavy_line ∷ []) [] (refl, (refl, tt))

abbrev packer : Session
packer = record {
  has_role = true;
  types = small_box ∷ big_box ∷ [];
  gross_weight_per_unit = λ i. if i == 10 then 1 else 2;
  volume_per_unit = λ i. 0;
  has_hu = λ n. false;
}

abbrev delivery : Delivery
delivery = record {
  name = 3;
  docstatus = 1;
  closed_short = false;
  status = other_status;
  items = record { item = 10; requested_quantity = 1000000; packed_quantity = 0 } ∷ [];
  planned_hus = [];
}

abbrev plan : List Carton × Delivery
unfolding plan_cartons lines_of line_of pack_lines pack_line put_some put_new put_first open_carton
    open_first whole_types usable_types type_fit fit fit_by put_in add_row planned_hus_of
    planned_rows sorted
plan = from_ok ([], delivery) (plan_cartons packer delivery)

plan_cartons-IsWithin_example : All (IsWithin packer.types) plan.0
unfolding plan_cartons lines_of line_of pack_lines pack_line put_some put_new put_first open_carton
    open_first whole_types usable_types type_fit fit fit_by put_in add_row planned_hus_of
    planned_rows sorted
plan_cartons-IsWithin_example = plan_cartons-IsWithin packer delivery refl
