-- ===== src/CrossDock/Matched.antt =====
-- How much of incoming goods frappe_wms/services/cross_dock.py sends to open deliveries.
use frappe_ewm.Base.{Bool-cases, List, [], arith, inl, inr, true, ℕ, ◌+◌, ◌-◌, ◌==◌, ◌∙◌, ◌∷◌, ◌≡◌}
use frappe_ewm.CrossDock.Demand.{
  demand_rows, find_cross_dock_demand, lesser, match_rows, outstanding,
}
use frappe_ewm.CrossDock.Types.{DemandLine, Match, Session, Supply}

abbrev pub matched : List Match → ℕ
matched [] = 0
matched (m ∷ ms) = m.quantity + matched ms

abbrev pub demanded : List DemandLine → ℕ
demanded [] = 0
demanded (l ∷ ls) = outstanding l + demanded ls

match_rows-matched :
    (remaining : ℕ) (ls : List DemandLine)
    → matched (match_rows remaining ls) ≡ lesser remaining (demanded ls)
unfolding match_rows
match_rows-matched remaining [] = ground arith
match_rows-matched remaining (l ∷ ls) = elim (Bool-cases (remaining == 0)) [
  | inl nothing ↦ rw nothing (ground arith)
  | inr some_left ↦ elim (Bool-cases (lesser remaining (outstanding l) == 0)) [
    | inl none_lacks ↦ rw (some_left, none_lacks) (match_rows-matched remaining ls ∙ ground arith)
    | inr lacks ↦
        let rest = match_rows-matched (remaining - lesser remaining (outstanding l)) ls in
        rw (some_left, lacks) (ground (arith, rest))
  ]
]

-- Where opportunistic cross docking is on, the quantities found for incoming goods together are
-- all that comes in or all that the open lines lack, whichever is less.
pub find_cross_dock_demand-matched :
    (s : Session) (want : Supply) (lines : List DemandLine)
    → s.opportunistic_cross_docking want.warehouse ≡ true
    → matched (find_cross_dock_demand s want lines)
      ≡ lesser want.quantity (demanded (demand_rows s want lines))
unfolding find_cross_dock_demand
find_cross_dock_demand-matched s want lines on =
    rw on (match_rows-matched want.quantity (demand_rows s want lines))
