-- ===== src/Difference/Clear.antt =====
-- What clearing a difference of frappe_wms/services/difference.py leaves.
use frappe_ewm.Base.{List, [], false, true, ◌∷◌, ◌≡◌, ◌⊎◌}
use frappe_ewm.Difference.Clearing.{is_open}
use frappe_ewm.Difference.Types.{TaskDifference}

-- A difference is cleared at most once: those that are cleared stay as they are.
abbrev pub KeepsCleared : List TaskDifference → List TaskDifference → Type 0
KeepsCleared [] [] = Unit
KeepsCleared [] (e ∷ es) = ⊥
KeepsCleared (d ∷ ds) [] = ⊥
KeepsCleared (d ∷ ds) (e ∷ es) =
    (e.name ≡ d.name)
    × ((e ≡ d) ⊎ ((is_open d.status ≡ true) × (is_open e.status ≡ false)))
    × KeepsCleared ds es
