-- ===== src/Picking/Shrunk.antt =====
-- A short pick (frappe_wms/services/task.py) gives back what its allocations lose.
use frappe_ewm.Base.{All, List, [], pos, ℤ, ◌+ℤ◌, ◌∷◌, ◌≡◌, ◌≤ℤ◌}
use frappe_ewm.Allocation.Types.{StockAllocation}
use frappe_ewm.Picking.{Db}
use frappe_ewm.Picking.Picked.{IsPickable}

-- What the allocations have reserved.
abbrev pub allocated_total : List StockAllocation → ℤ
allocated_total [] = pos 0
allocated_total (a ∷ rows) = a.allocated_quantity +ℤ allocated_total rows

-- What a run over the rows of a short task leaves of the shortfall.
abbrev pub Shrinks : ℤ → Db → ℤ × Db → Type 0
Shrinks remaining db (left, db') =
    All IsPickable db'.allocations
    × (allocated_total db'.allocations +ℤ remaining ≡ allocated_total db.allocations +ℤ left)
    × (pos 0 ≤ℤ left)
    × (left ≤ℤ remaining)
