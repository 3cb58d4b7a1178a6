-- ===== src/Stock/Measure.antt =====
-- `recompute_measurements` of frappe_wms/services/handling_unit.py, which every posting against a
-- handling unit ends with. A per-unit value is a whole number of weight or volume units, so a
-- product of it with a quantity is a number of millionths of those units.
use frappe_ewm.Base.{
  Bool, List, Name, Result, [], eqb_ℤ, if◌then◌else◌, is_set, keep, leb_ℤ, ltb_ℤ, none, not, ok,
  pos, scale, some, throw_if, ℕ, ℤ, ◌&&◌, ◌+ℤ◌, ◌==◌, ◌>>=◌, ◌>>◌, ◌||◌, ◌∷◌,
}
use frappe_ewm.Stock.Rows.{find_hu, save_hu}
use frappe_ewm.Stock.Types.{
  Balance, Db, Env, Error, HandlingUnit, StockStatus, empty, full, over_payload, partial,
}

-- The rows of the query: what the unit holds.
unfoldable pub contents : Name → List Balance → List Balance
contents hu = keep λ b. (b.place.handling_unit == hu) && ltb_ℤ (pos 0) b.quantity

-- `sum(flt(r.quantity) * flt(r.<per unit>) for r in rows)`
unfoldable pub weigh : (Name → ℕ) → List Balance → ℤ
weigh per_unit [] = pos 0
weigh per_unit (b ∷ bs) = scale (per_unit b.place.product) b.quantity +ℤ weigh per_unit bs

-- `limits.maximum and value >= limits.maximum`
abbrev reaches : ℤ → ℤ → Bool
reaches value limit = not (eqb_ℤ limit (pos 0)) && leb_ℤ limit value

unfoldable pub stock_status_of : Env → HandlingUnit → List Balance → ℤ → ℤ → StockStatus
stock_status_of env hu rows gross volume =
    if leb_ℤ (weigh (λ _. 1) rows) (pos 0)
    then empty
    else if is_set hu.hu_type
        && (reaches gross (env.maximum_weight hu.hu_type)
            || reaches volume (env.maximum_volume hu.hu_type))
    then full
    else partial

unfoldable pub measured : Env → HandlingUnit → List Balance → Result Error HandlingUnit
measured env hu rows = do
  let net = weigh env.gross_weight_per_unit rows
  let volume = weigh env.volume_per_unit rows
  let gross = net +ℤ hu.tare_weight
  throw_if (not (eqb_ℤ hu.max_payload_weight (pos 0)) && ltb_ℤ (hu.max_payload_weight +ℤ pos 1) net)
      over_payload
  ok (record hu {
    net_weight = net;
    gross_weight = gross;
    volume = volume;
    stock_status = stock_status_of env hu rows gross volume;
  })

unfoldable pub recompute_measurements : Env → Name → Db → Result Error Db
recompute_measurements env name db = elim (find_hu name db.handling_units) [
  | none ↦ ok db
  | some hu ↦ do
    hu' ← measured env hu (contents name db.balances)
    ok (record db { handling_units = save_hu hu' db.handling_units })
]

-- `for hu in {...}: recompute_measurements(hu)`
unfoldable pub recompute_all : Env → List Name → Db → Result Error Db
recompute_all env [] db = ok db
recompute_all env (n ∷ ns) db = do db' ← recompute_measurements env n db; recompute_all env ns db'
