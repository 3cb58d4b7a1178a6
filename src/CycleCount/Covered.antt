-- ===== src/CycleCount/Covered.antt =====
-- That the counts of frappe_wms/services/cycle_count.py are not asked for twice.
use frappe_ewm.Base.{All, List, true, ◌++◌, ◌≡◌}
use frappe_ewm.CycleCount.Rules.{Scope, scope_recently_covered}
use frappe_ewm.CycleCount.Types.{CountRule, Counts, Session}

-- The counts after are those before and more.
abbrev pub Extends : Counts → Counts → Type 0
Extends before after = (added : Counts) × (after ≡ before ++ added)

-- The counts after a run extend those before, and cover every scope.
abbrev Done : Session → CountRule → List Scope → Counts → Counts → Type 0
Done s rule xs before after =
    Extends before after × All (λ x. scope_recently_covered s rule x after ≡ true) xs
