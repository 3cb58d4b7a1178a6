-- ===== src/InventoryCount/Blocking.antt =====
-- The bins that a count of frappe_wms/services/inventory_count.py blocks for removal.
use frappe_ewm.Base.{All, List, Name, [], contains, false, if◌then◌else◌, true, ◌==◌, ◌∷◌, ◌≡◌}
use frappe_ewm.InventoryCount.Types.{Bin}

-- A bin's name is unique.
abbrev pub UniqueBins : List Bin → Type 0
UniqueBins [] = Unit
UniqueBins (b ∷ bs) = All (λ y. b.name == y.name ≡ false) bs × UniqueBins bs

abbrev both : List Name → Bin → Bin
both ns b =
    let b' = if contains b.name ns then record b { removal_blocked = true } else b in
    if contains b'.name ns then record b' { removal_blocked = false } else b'
